-- ===== src/Core/Process/Stopped.antt =====
-- Which process `Stop` terminates.
use cheburnet.Base.{
  if-holds, ℕ, ◌≡◌, ◌≢◌, refl, ◌⊎◌, inl, inr, true, false, not, Option, none, some, Bytes, arith,
  ==_iff, if◌then◌else◌,
}
use cheburnet.Launch.Recovery.{iequals_ascii}
use cheburnet.Core.Process.{
  ProcessRecord, no_record, is_valid, is_expected_winws_image, stopped, not_running,
  identity_mismatch, stop_error, signaled, Processes, is_same, identity_matches, Stopping,
  after_terminate, stop_opened, stop_process,
}

module _ {W H : Type 0} (sys : Processes W H) (runtime_root : Bytes) where
  -- A handle of the recorded process, which is a winws.exe of this program: it was opened for the
  -- recorded id, and has the recorded creation time and, without regard to case, the recorded image;
  -- and so has the id itself.
  pub record IsTarget (r : ProcessRecord) (h : H) (w : W) : Type 0 where
    pub opened : sys.open_process r.pid w ≡ some h
    pub created : sys.creation_time_of h w ≡ some r.creation_time
    pub image : Bytes
    pub runs : sys.image_path_of h w ≡ some image
    pub same : iequals_ascii image r.image_path ≡ true
    pub expected : is_expected_winws_image r.image_path runtime_root ≡ true
    pub matches : identity_matches sys runtime_root r w ≡ true

  is_same-parts :
      (r : ProcessRecord) (time : Option ℕ) (image : Option Bytes)
      → is_same r time image ≡ true
      → (time ≡ some r.creation_time)
        × ((path : Bytes) × ((image ≡ some path) × (iequals_ascii path r.image_path ≡ true)))
  is_same-parts r none image h = absurd (ground arith)
  is_same-parts r (some time) none h = absurd (ground arith)
  is_same-parts r (some time) (some image) h =
      (ground (arith, ==_iff time r.creation_time), (image, (refl, ground arith)))

  -- There is no target for the record: it is not valid; its image is none of this program's; the process
  -- of its id does not have its identity; or that cannot be opened, or the handle does not have it.
  abbrev pub HasNoTarget : ProcessRecord → W → Type 0
  HasNoTarget r w =
      (is_valid r ≡ false)
      ⊎ ((is_expected_winws_image r.image_path runtime_root ≡ false)
          ⊎ ((identity_matches sys runtime_root r w ≡ false)
              ⊎ ((sys.open_process r.pid w ≡ none)
                  ⊎ ((h : H) × ((sys.open_process r.pid w ≡ some h)
                        × (is_same r (sys.creation_time_of h w) (sys.image_path_of h w)
                            ≡ false))))))

  -- What a stop leaves that terminates nothing.
  abbrev pub Untouched : ProcessRecord → W → Stopping sys runtime_root → Type 0
  Untouched r w (status, (r₁, w₁)) =
      (status ≢ stopped)
      × (((r₁ ≡ r) × (w₁ ≡ w))
          ⊎ ((sys.alive r.pid w ≡ false) × ((r₁ ≡ no_record) × (w₁ ≡ sys.delete_record w))))

  -- What a stop leaves that calls `TerminateProcess` with the handle: where the call and the wait
  -- succeed, and where either does not.
  abbrev pub Terminated : ProcessRecord → H → W → Stopping sys runtime_root → Type 0
  Terminated r h w (status, (r₁, w₁)) =
      let (killed, w₂) = sys.terminate h w in
      let (waited, w₃) = sys.wait h 5000 w₂ in
      ((killed ≡ true)
        × ((waited ≡ signaled)
            × ((status ≡ stopped) × ((r₁ ≡ no_record) × (w₁ ≡ sys.delete_record w₃)))))
      ⊎ (((killed ≡ true)
            × ((waited ≢ signaled) × ((status ≡ stop_error) × ((r₁ ≡ r) × (w₁ ≡ w₃)))))
          ⊎ ((killed ≡ false) × ((status ≡ stop_error) × ((r₁ ≡ r) × (w₁ ≡ w₂)))))

  after_terminate-Terminated :
      (r : ProcessRecord) (h : H) (w : W)
      → Terminated r h w (after_terminate sys runtime_root r h (sys.terminate h w))
  after_terminate-Terminated r h w = ground arith

  abbrev pub IsOutcome : ProcessRecord → W → Stopping sys runtime_root → Type 0
  IsOutcome r w s =
      (HasNoTarget r w × Untouched r w s) ⊎ ((h : H) × (IsTarget r h w × Terminated r h w s))

  stop_opened-IsOutcome :
      (r : ProcessRecord) (opened : Option H) (w : W)
      → sys.open_process r.pid w ≡ opened
      → is_expected_winws_image r.image_path runtime_root ≡ true
      → identity_matches sys runtime_root r w ≡ true
      → IsOutcome r w (stop_opened sys runtime_root r opened w)
  stop_opened-IsOutcome r none w o e m =
      inl (inr (inr (inr (inl o))), (ground arith, inl (refl, refl)))
  stop_opened-IsOutcome r (some h) w o e m =
      let same = is_same r (sys.creation_time_of h w) (sys.image_path_of h w) in
      if-holds (IsOutcome r w) (not same) (identity_mismatch, (r, w))
        (after_terminate sys runtime_root r h (sys.terminate h w))
        (λ n. inl (inr (inr (inr (inr (h, (o, ground arith))))), (ground arith, inl (refl, refl))))
        (λ n.
          let (time, (path, (image, equal))) =
            is_same-parts r (sys.creation_time_of h w) (sys.image_path_of h w) (ground arith) in
          inr (
            h,
            (
              record {
                opened = o;
                created = time;
                image = path;
                runs = image;
                same = equal;
                expected = e;
                matches = m;
              },
              after_terminate-Terminated r h w,
            ),
          ))

  -- A process that is gone has not the identity of the record.
  dead-identity :
      (r : ProcessRecord) (w : W)
      → sys.alive r.pid w ≡ false
      → identity_matches sys runtime_root r w ≡ false
  unfolding identity_matches
  dead-identity r w h = ground arith

  -- `Stop` calls `TerminateProcess` exactly when the record is valid, its image is a winws.exe below the
  -- root of the runtimes, and a process could be opened for the recorded id whose creation time and
  -- image are the recorded ones, asked of the id and again of the handle; and only with that handle.
  -- Then it says `Stopped` and forgets the record if the call succeeded and the wait saw the process
  -- end, and if not it says `Failed` and keeps the record. Where it does not call it, it does not say
  -- `Stopped`, and changes nothing, but for the record of a process that is gone, which it deletes.
  pub stop_process-IsOutcome :
      (r : ProcessRecord) (w : W) → IsOutcome r w (stop_process sys runtime_root r w)
  unfolding stop_process
  stop_process-IsOutcome r w =
      let last = stop_opened sys runtime_root r (sys.open_process r.pid w) w in
      let matched =
        if not (identity_matches sys runtime_root r w) then (identity_mismatch, (r, w)) else last in
      let living =
        if not (sys.alive r.pid w)
        then (not_running, (no_record, sys.delete_record w))
        else matched in
      let expected =
        if not (is_expected_winws_image r.image_path runtime_root)
        then (identity_mismatch, (r, w))
        else living in
      if-holds (IsOutcome r w) (not (is_valid r)) (not_running, (r, w)) expected
        (λ a. inl (inl (ground arith), (ground arith, inl (refl, refl))))
        (λ a.
          if-holds (IsOutcome r w) (not (is_expected_winws_image r.image_path runtime_root))
            (identity_mismatch, (r, w)) living
            (λ b. inl (inr (inl (ground arith)), (ground arith, inl (refl, refl))))
            (λ b.
              if-holds (IsOutcome r w) (not (sys.alive r.pid w))
                (not_running, (no_record, sys.delete_record w)) matched
                (λ c.
                  let gone : sys.alive r.pid w ≡ false = ground arith in
                  inl (
                    inr (inr (inl (dead-identity r w gone))),
                    (ground arith, inr (gone, (refl, refl))),
                  ))
                (λ c.
                  if-holds (IsOutcome r w) (not (identity_matches sys runtime_root r w))
                    (identity_mismatch, (r, w)) last
                    (λ d. inl (inr (inr (inl (ground arith))), (ground arith, inl (refl, refl))))
                    (λ d.
                      stop_opened-IsOutcome r (sys.open_process r.pid w) w refl (ground arith)
                        (ground arith)))))
