-- ===== src/Lib.antt =====
-- Shinogi runs EmuTOS and FreeMiNT on QEMU's m68k machine. The guest's drive C is a folder of the
-- host: the guest sends requests over a byte pipe, and the helper in
-- tools/hostfsd/shinogi-hostfsd.c answers them. This library models that helper, the launchers of the
-- Linux and the Windows edition, the screenshot tool, the monitor client, and the network, drive and
-- screen settings of the Windows edition.
--
-- The parts, and where they are:
--   * Base holds what all share: Boolean tests, lists over the native numbers, byte strings with the
--     C library's comparisons, and a result type for errors as values.
--   * Hostfsd/Host is the operating system, over a state that is not known: a record of the calls
--     that the helper makes. Hostfsd/Config is what `main` settles beforehand.
--   * Hostfsd/Proto and Hostfsd/Frame are tools/hostfsd/shinogi-hostfs-proto.h and the encoding of
--     fields (`get32`, `get16`, `put32`, `put16`).
--   * Hostfsd/Names is `component_ok`, `is_dos_device`, `name_eq_fold` and the scan in `match_fold`.
--   * Hostfsd/Path is `under_root`, `dir_under_root` and `resolve_path`, with the loop over the
--     components as `join_path` and what follows it as `resolve_joined`.
--   * Hostfsd/Daemon is the state (the tables `files` and `dirs`, with the host's state beside them)
--     and `handles_reset`, `file_of`, `dir_of`.
--   * Hostfsd/Files, Hostfsd/Dirs and Hostfsd/Tree are the cases of the `switch` in `serve`, one
--     function `..._op` for each, and `dir_snapshot`. Each takes the state and returns the reply
--     and the next state. Hostfsd/Serve is `serve` itself.
--   * Hostfsd/Session is `recv_exact`, `send_all` and `serve_client`: what comes in is a sequence of
--     arrivals, of any size, and failures; how much the peer takes of a reply is a function of the
--     number of the call.
--   * Hostfsd/Startup is `main`: arguments, root and label, the writable pass (a pass over at most 33
--     levels of folders, with the recursion of `make_writable` on the levels left), and the loop over
--     the clients.
--   * Tests runs the model on a small host in memory.
--
-- Win/Network is tools/win/network-config.c: Valid is `network_config_valid`, over the bit masks of
-- Base/Bits, the parent is `network_ipv4`, and Options, Script and Hook are the functions that write
-- QEMU's options, the guest's script and the guest's MINT.CNF. Win/Drives is tools/win/drives.c:
-- `drives_valid` over what Windows says of files, and in Images `drives_image_options`.
-- Win/Resolution is tools/win/resolution.c: a size and the line for it, and in Stored the two
-- functions that read and rewrite the settings file; a file is cut into the pieces that `fgets` gives
-- in a buffer of 1024 bytes, on fuel of one call for each byte, and of each piece the calls on C
-- strings see what stands before its first 0 byte. Win/Guest is `prepare_guest` of
-- tools/win/network.c over the three files that it touches, with the success of each call of Windows
-- as an argument, and Win/Prepare is `network_prepare` round it. Win/Network/Stored is `network_load`
-- and `network_save` over Win/Profile, which states what they rely on of the settings files of
-- Windows: what is written under a key is read under it, and nothing else changes.
--
-- Launcher is tools/shinogi-launcher.c in its Linux build. What it does to the machine is a list of
-- actions, and each answer of the machine may hang on all actions before it, so that time and other
-- processes are in the answers. The wait for the helper counts its 200 pauses down. Protocol is an
-- abstract description of what may follow what, which the launcher refines.
--
-- Win/Launcher is tools/win/shinogi-launcher.c in the same way: `start_helper` with its 500 polls,
-- the loops over the drives, `stop_helper`, and in Main `WinMain` from the valid settings on, with
-- `network_prepare` in it. Stopped says which helpers are there after what was done.
--
-- Linux/Shot is tools/linux/shinogi-shot.c: Crop is the command line and the region, Ppm the header,
-- Pixels the rows, Zlib the stream of stored blocks, Png the chunks, and Shot itself `main`. The
-- readers that the results speak of (`inflate`, `read_zlib`, `read_chunk`, `read_png`) are
-- independent of the code. An `int` that runs over ends a run as `undefined`. The loop over the
-- blocks takes the number of bytes as its fuel. Ppm/Announced describes the header's numbers without
-- the code's loop: blanks and digits, once the comments are taken out.
--
-- Linux/Monitor is tools/linux/shinogi-monitor.c: Text is `drain` and `print_reply`, Qmp is
-- `read_line`, `qmp_send` and `qmp_main`, and the parent `connect_unix` and `main`. A socket gives a
-- sequence of arrivals; `read_line` takes it byte by byte. `await_answer`, the loop of `qmp_send`, has
-- a round for each byte to come and one more, beyond which further rounds change nothing
-- (Qmp/Enough).
--
-- Bytes are numbers. `ra`, `rb` and lengths are natural numbers, cut to their width where they are
-- stored in a frame; a block count times its unit wraps at 64 bits before it is turned into
-- kilobytes. `recv_loop` and `send_all` run on as much fuel as there are bytes to move, which is
-- enough because each call moves at least one; `serve_client` takes its fuel as an argument.
--
-- Of the platform of the helper, the POSIX branches are modelled, with PATH_MAX as 4096.
-- Interrupted system calls are repeated by the source, so an interrupt is not an event here. `open`,
-- `read` and the other calls change only the host's state; messages to stderr and the memory behind
-- pointers are left out, except that an allocation can fail where the source tests it.
--
-- Not modelled: the Windows branches of the helper and the macOS branches of the launcher; the
-- dialogs (tools/win/settings.c, the second half of tools/win/drives.c, the set-up and the list of
-- adapters in tools/win/network.c) and tools/win/window-controls.c, whose state is that of windows;
-- tools/win/install-tap.c, which installs a device; tools/guest and tools/sdl-grab-probe.c, which
-- call the guest's system and SDL; tests, scripts and packaging.
pub mod Base
pub mod Hostfsd
pub mod Launcher
pub mod Linux
pub mod Tests
pub mod Win
