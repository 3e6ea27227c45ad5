-- ===== src/Win/Guest/Careful/Saved.antt =====
-- tools/win/network.c, `prepare_guest`: the backup, the script and MINT.CNF, in this order.
use shinogi.Base.{
  Bool, true, false, not, ◌&&◌, ◌≡◌, refl, ap, ◌∙◌, sym, ◌⊎◌, inl, inr, arith, Option, some, Bytes,
  equal, equal_iff, Bool-cases, Option-cases,
}
use shinogi.Base.Result.{ok, err}
use shinogi.Win.Network.Valid.{NetworkSettings}
use shinogi.Win.Network.Hook.{network_boot_hook}
use shinogi.Win.Network.Script.{network_guest_script}
use shinogi.Win.Guest.{
  file, Folder, Calls, no_backup, not_saved, write_atomic, is_absent, save_config, same_script,
  save_script, matching, save_backup,
}
use shinogi.Win.Guest.Careful.{
  IsOurs, IsHooked, IsCareful, untouched, write_atomic_cases, roll_back_lem, same_script_lem,
  matching_lem,
}

-- From the point on where MINT.CNF is read and edited and the script is known for Shinogi's.
module _ (s : NetworkSettings) (c : Calls) (d : Folder) (old hook : Bytes)
    (old_script : Option Bytes) (was : d.config ≡ file old)
    (edited : network_boot_hook c.memory old ≡ ok hook) (ours : IsOurs d.script) where
  -- The folder is as it was but for a backup, and for the script.
  record IsBacked (changed : Bool) (d1 : Folder) : Type 0 where
    same_config : d1.config ≡ file old
    kept : (d1.backup ≡ d.backup) ⊎ ((is_absent d.backup ≡ true) × (d1.backup ≡ d.config))
    saved : (changed ≡ false) ⊎ (d1.backup ≡ file old)

  given_up :
      {changed : Bool} {d1 d2 : Folder}
      → d2.config ≡ file old
      → d2.backup ≡ d1.backup
      → IsBacked changed d1
      → IsCareful s c d (err not_saved) d2
  given_up e f b = record {
    backup_kept = ground arith;
    config_kept = inl (e ∙ sym was);
    script_kept = inr ours;
    told = inl (not_saved, refl);
  }

  save_config_lem :
      (changed : Bool) (d1 : Folder) (text : Bytes)
      → (changed ≡ not (equal old hook))
      → IsBacked changed d1
      → network_guest_script s 1024 ≡ some text
      → d1.script ≡ file text
      → IsCareful s c d
          (save_config c hook changed old_script d1).0
          (save_config c hook changed old_script d1).1
  unfolding save_config
  save_config_lem false d1 text ch b made there =
      let same : old ≡ hook = (equal_iff old hook).0 (ground (arith, ch)) in
      let hooked : IsHooked c d d1 = record {
        old = old;
        hook = hook;
        was = was;
        edited = edited;
        now = b.same_config ∙ ap file same;
      } in
      record {
        backup_kept = b.kept;
        config_kept = inl (b.same_config ∙ sym was);
        script_kept = inr ours;
        told = inr (inr (record { text = text; made = made; there = there; hooked = hooked }));
      }
  save_config_lem true d1 text ch b made there =
      let copy : d1.backup ≡ d.config = ground arith in
      elim (write_atomic_cases c.saves_config hook d1.config d1.temps) [
        | inl (well, new) ↦
            let d2 : Folder = record d1 {
              config = (write_atomic c.saves_config hook d1.config d1.temps).1;
              temps = (write_atomic c.saves_config hook d1.config d1.temps).2;
            } in
            let hooked : IsHooked c d d2 = record {
              old = old;
              hook = hook;
              was = was;
              edited = edited;
              now = new;
            } in
            rw well (record {
              backup_kept = b.kept;
              config_kept = inr (hooked, copy);
              script_kept = inr ours;
              told =
                  inr (inr (record { text = text; made = made; there = there; hooked = hooked }));
            })
        | inr (failed, same) ↦
            let back = roll_back_lem c old_script (record d1 {
              config = (write_atomic c.saves_config hook d1.config d1.temps).1;
              temps = (write_atomic c.saves_config hook d1.config d1.temps).2;
            }) in
            rw failed (given_up (back.0 ∙ same ∙ b.same_config) back.1 b)
      ]

  save_script_lem :
      (changed : Bool) (d1 : Folder)
      → (changed ≡ not (equal old hook))
      → IsBacked changed d1
      → d1.script ≡ d.script
      → ((text : Bytes) → old_script ≡ some text → d.script ≡ file text)
      → IsCareful s c d
          (save_script s c hook changed old_script d1).0
          (save_script s c hook changed old_script d1).1
  unfolding save_script
  save_script_lem changed d1 ch b same is_old = elim (Option-cases (network_guest_script s 1024)) [
    | inl long ↦ rw (long, save_script) (given_up b.same_config refl b)
    | inr (text, made) ↦ elim (Bool-cases (same_script old_script text)) [
      | inl unchanged ↦
          rw (made, save_script)
            (rw unchanged (
              save_config_lem changed d1 text ch b made
                (same ∙ is_old text (same_script_lem old_script text unchanged))))
      | inr other ↦ elim (write_atomic_cases c.saves_script text d1.script d1.temps) [
        | inl (well, new) ↦
            let d2 : Folder = record d1 {
              script = (write_atomic c.saves_script text d1.script d1.temps).1;
              temps = (write_atomic c.saves_script text d1.script d1.temps).2;
            } in
            let b2 : IsBacked changed d2 = record {
              same_config = b.same_config;
              kept = b.kept;
              saved = b.saved;
            } in
            rw (made, save_script)
              (rw other (rw well (save_config_lem changed d2 text ch b2 made new)))
        | inr (failed, same_text) ↦
            rw (made, save_script) (rw other (rw failed (given_up b.same_config refl b)))
      ]
    ]
  ]

  pub save_backup_lem :
      ((text : Bytes) → old_script ≡ some text → d.script ≡ file text)
      → IsCareful s c d
          (save_backup s c old hook old_script d).0
          (save_backup s c old hook old_script d).1
  unfolding save_backup
  save_backup_lem is_old = elim (Bool-cases (equal old hook)) [
    | inl same ↦
        let b : IsBacked false d = record {
          same_config = was;
          kept = inl refl;
          saved = inl refl;
        } in
        rw same (save_script_lem false d (ground arith) b refl is_old)
    | inr changed ↦ elim (Bool-cases (is_absent d.backup && c.copies)) [
      | inl free ↦
          let d1 : Folder = record d { backup = d.config } in
          let none_there : is_absent d.backup ≡ true = ground arith in
          let b : IsBacked true d1 = record {
            same_config = was;
            kept = inr (none_there, refl);
            saved = inr was;
          } in
          rw changed (rw free (save_script_lem true d1 (ground arith) b refl is_old))
      | inr taken ↦ elim (Bool-cases (not (is_absent d.backup) && c.copies && matching c old d)) [
        | inl matches ↦
            let saved : d.backup ≡ file old = matching_lem c old d (ground arith) in
            let b : IsBacked true d = record {
              same_config = was;
              kept = inl refl;
              saved = inr saved;
            } in
            rw changed (rw taken (rw matches (save_script_lem true d (ground arith) b refl is_old)))
        | inr stops ↦
            rw changed
              (rw taken (rw stops (untouched s c d (err no_backup) (inl (no_backup, refl)))))
      ]
    ]
  ]
