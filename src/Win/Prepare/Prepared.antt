-- ===== src/Win/Prepare/Prepared.antt =====
-- tools/win/network.c: what `network_prepare` changes, and when it succeeds.
use shinogi.Base.{ℕ, ◌≡◌, some, Bytes}
use shinogi.Base.Result.{Result, ok, err}
use shinogi.Win.Network.Valid.{NetworkSettings, network_config_valid}
use shinogi.Win.Network.Options.{network_qemu_options}
use shinogi.Win.Guest.{Folder, Calls, GuestError}
use shinogi.Win.Guest.Careful.{IsCareful}
use shinogi.Win.Prepare.{Windows, PrepareError, guest, lan_name}

-- A failure before the guest's files are reached, or what `prepare_guest` came to.
pub data IsPrepared (w : Windows) (s : NetworkSettings) (c : Calls) (size : ℕ) (d : Folder)
    (r : Result PrepareError Bytes) (d' : Folder) : Type 0 where
  stopped : (e : PrepareError) → r ≡ err e → d' ≡ d → IsPrepared w s c size d r d'
  guest_failed :
      (e : GuestError)
      → r ≡ err (guest e)
      → IsCareful s c d (err e) d'
      → IsPrepared w s c size d r d'
  prepared :
      (name options : Bytes)
      → network_config_valid s ≡ ok tt
      → lan_name w s ≡ ok name
      → network_qemu_options s name size ≡ some options
      → r ≡ ok options
      → IsCareful s c d (ok tt) d'
      → IsPrepared w s c size d r d'
