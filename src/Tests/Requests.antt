-- ===== src/Tests/Requests.antt =====
-- Runs of single requests.
use shinogi.Base.{ℕ, false, ◌≡◌, refl, arith, codes}
use shinogi.Hostfsd.Daemon.{Daemon, Request, start, handles_reset}
use shinogi.Hostfsd.Proto.{op_open, op_write}
use shinogi.Hostfsd.Serve.{answer, serve, is_refused}
use shinogi.Hostfsd.Serve.Descriptors.{answer-IsOwned, start-IsOwned}
use shinogi.Hostfsd.Serve.Frames.{IsReplyFrame, serve-IsReplyFrame}
use shinogi.Hostfsd.Serve.Invariant.{IsSound, at_start, by_request, IsReachable-IsSound}
use shinogi.Hostfsd.Serve.Owned.{IsOwned}
use shinogi.Hostfsd.Serve.ReadOnly.{answer-view}
use shinogi.Hostfsd.Serve.Tables.{KeepsTables, answer-error}
use shinogi.Tests.Disk.{
  Ram, disk, fresh, is_open, cfg, locked, disk-ReadsAtMost, disk-IsStored, disk-TracksOpen,
}

abbrev ready : Daemon Ram
ready = start disk fresh

abbrev open_a : Request
open_a = record { op = op_open; a = 2; b = 0; c = 0; payload = codes "a.txt" }

abbrev write_1 : Request
write_1 = record { op = op_write; a = 1; b = 0; c = 2; payload = codes "Hi" }

-- One file is open.
abbrev holding : Daemon Ram
holding = (answer disk cfg open_a ready).1

IsReachable-IsSound_example : IsSound holding
IsReachable-IsSound_example =
    IsReachable-IsSound disk cfg holding (by_request open_a (at_start fresh))

answer-IsOwned_example :
    IsOwned disk is_open (answer disk cfg open_a ready).1
    × ((x : ℕ) → is_open (handles_reset disk ready).os x ≡ false)
answer-IsOwned_example =
    answer-IsOwned disk cfg is_open disk-TracksOpen ready
      (start-IsOwned disk cfg is_open disk-TracksOpen fresh (λ x. refl)) open_a
      (IsReachable-IsSound disk cfg ready (at_start fresh))

serve-IsReplyFrame_example : IsReplyFrame (serve disk cfg (codes "short") holding).0
serve-IsReplyFrame_example =
    serve-IsReplyFrame disk cfg holding (codes "short") disk-ReadsAtMost (ground arith)
      (IsReachable-IsSound disk cfg holding (by_request open_a (at_start fresh)))

answer-view_example : (answer disk locked write_1 holding).1.os.content ≡ holding.os.content
answer-view_example = answer-view disk locked (λ os. os.content) disk-IsStored holding write_1 refl

answer-error_example : KeepsTables holding (answer disk locked write_1 holding).1
unfolding answer is_refused
answer-error_example = answer-error disk locked holding write_1 (λ e. absurd (cc))
