-- ===== src/Update/Manager/Trust.antt =====
-- What the cache of `UpdateManager` holds over any sequence of calls, and what a check or a download
-- that succeeds therefore says.
use cheburnet.Base.{
  ◌*◌, ◌≡◌, refl, ◌≢◌, sym, subst, ◌⊎◌, inl, inr, Bool, true, false, ◌||◌, Option, none, some, [],
  arith, Bytes, Bool-cases,
}
use cheburnet.Update.Manifest.{
  Artifact, Manifest, ManifestResult, manifest, refused, parse_manifest,
}
use cheburnet.Update.Eligibility.{Eligibility, evaluate_payload, evaluate_launcher}
use cheburnet.Update.Manager.{
  CheckResult, up_to_date, available, HttpResult, http_ok, not_modified, System, Build, Session,
  bad_signature, launcher_refused, payload_refused, is_upgrade, current_payload, judged, keep,
  evaluate_at, evaluate, check_parsed, check_signature, use_signature, fetch_signature, use_cache,
  use_answer, check_now, download_verified, with_world, HttpStatus,
}

module _ {W : Type 0} (sys : System W) (build : Build) where
  -- The manifest is what some bytes parse to whose signature was verified with the key they name.
  pub record IsVerified (m : Manifest) : Type 0 where
    pub bytes : Bytes
    pub signature : Bytes
    pub parsed : parse_manifest bytes (64 * 1024) ≡ manifest m
    pub signed : sys.verify bytes signature m.key_id ≡ true

  -- A result that a verified manifest was judged to: nothing refuses it, the verdicts are those of
  -- `EvaluateLauncher` and `EvaluatePayload`, and `available` stands for an upgrade of one of the two.
  pub record IsGood (r : CheckResult) : Type 0 where
    pub source : Manifest
    pub kept : r.manifest ≡ some source
    pub verified : IsVerified source
    pub passed : (launcher_refused r.launcher || payload_refused r.payload) ≡ false
    pub by_launcher : r.launcher ≡ evaluate_launcher source build.version build.stable_channel
    pub installed : Bytes
    pub by_payload :
        r.payload ≡ evaluate_payload source installed build.version build.stable_channel
    pub verdict :
        ((r.status ≡ available) × ((is_upgrade r.launcher || is_upgrade r.payload) ≡ true))
        ⊎ ((r.status ≡ up_to_date) × ((is_upgrade r.launcher || is_upgrade r.payload) ≡ false))

  abbrev pub IsCache : Option CheckResult → Type 0
  IsCache none = Unit
  IsCache (some r) = IsGood r

  -- What a call that checks leaves: a result that is good or is no verdict, and a cache that is the
  -- one from before or holds the result.
  abbrev pub IsOutcome : Session W → CheckResult × Session W → Type 0
  IsOutcome s (r, t) =
      (IsGood r ⊎ ((r.status ≢ available) × (r.status ≢ up_to_date)))
      × (((t.verified ≡ s.verified) × (t.etag ≡ s.etag)) ⊎ ((t.verified ≡ some r) × IsGood r))

  module _ (m : Manifest) (launcher payload : Eligibility) where
    judged-fields :
        let r = judged sys build m launcher payload in
        (r.manifest ≡ some m) × ((r.launcher ≡ launcher) × (r.payload ≡ payload))
    judged-fields = ground arith

    -- Either the manifest is refused, and the cache kept, or the result is a verdict, and is kept.
    judged-cases :
        (etag : Bytes) (s : Session W)
        → let r = judged sys build m launcher payload in
          let t = keep sys build r etag s in
          ((r.status ≢ available)
            × ((r.status ≢ up_to_date) × ((t.verified ≡ s.verified) × (t.etag ≡ s.etag))))
          ⊎ ((t.verified ≡ some r)
              × (((launcher_refused r.launcher || payload_refused r.payload) ≡ false)
                  × (((r.status ≡ available)
                        × ((is_upgrade r.launcher || is_upgrade r.payload) ≡ true))
                      ⊎ ((r.status ≡ up_to_date)
                          × ((is_upgrade r.launcher || is_upgrade r.payload) ≡ false)))))
    judged-cases etag s = ground arith

  judged-IsOutcome :
      (m : Manifest) (now etag : Bytes) (s : Session W)
      → IsVerified m
      → let r =
          judged sys build m
            (evaluate_launcher m build.version build.stable_channel)
            (evaluate_payload m now build.version build.stable_channel) in
        IsOutcome s (r, keep sys build r etag s)
  judged-IsOutcome m now etag s v =
      let l = evaluate_launcher m build.version build.stable_channel in
      let p = evaluate_payload m now build.version build.stable_channel in
      let (kept, (by_launcher, by_payload)) = judged-fields m l p in
      elim (judged-cases m l p etag s) [
        | inl (a, (b, same)) ↦ (inr (a, b), inl same)
        | inr (stored, (passed, verdict)) ↦
            let good : IsGood (judged sys build m l p) = record {
              source = m;
              kept = kept;
              verified = v;
              passed = passed;
              by_launcher = by_launcher;
              installed = now;
              by_payload = by_payload;
              verdict = verdict;
            } in
            (inl good, inr (stored, good))
      ]

  evaluate_at-IsOutcome :
      (m : Manifest) (etag : Bytes) (s : Session W) (now : Option Bytes)
      → IsVerified m
      → IsOutcome s (evaluate_at sys build m etag s now)
  evaluate_at-IsOutcome m etag s none v = (inr (ground arith, ground arith), inl (refl, refl))
  evaluate_at-IsOutcome m etag s (some now) v = judged-IsOutcome m now etag s v

  check_parsed-IsOutcome :
      (bytes signature etag : Bytes) (s : Session W) (r : ManifestResult)
      → parse_manifest bytes (64 * 1024) ≡ r
      → IsOutcome s (check_parsed sys build bytes signature etag s r)
  check_parsed-IsOutcome bytes signature etag s (refused why) e =
      (inr (ground arith, ground arith), inl (refl, refl))
  check_parsed-IsOutcome bytes signature etag s (manifest m) e =
      elim (Bool-cases (sys.verify bytes signature m.key_id)) [
        | inl signed ↦
            subst
              (λ b. IsOutcome s (elim b [
                | true ↦ evaluate sys build m etag s
                | false ↦ (bad_signature sys build, s)
              ]))
              (sym signed)
              (unfold evaluate in
                evaluate_at-IsOutcome m etag s (current_payload sys build s.world)
                  (record { bytes = bytes; signature = signature; parsed = e; signed = signed }))
        | inr unsigned ↦
            subst
              (λ b. IsOutcome s (elim b [
                | true ↦ evaluate sys build m etag s
                | false ↦ (bad_signature sys build, s)
              ]))
              (sym unsigned) (inr (ground arith, ground arith), inl (refl, refl))
      ]

  use_signature-IsOutcome :
      (answer : HttpResult) (status : HttpStatus) (signature : Bytes) (s : Session W)
      → IsOutcome s (use_signature sys build answer status signature s)
  use_signature-IsOutcome answer http_ok signature s =
      unfold check_signature in
      check_parsed-IsOutcome answer.body signature answer.etag s
        (parse_manifest answer.body (64 * 1024)) refl
  use_signature-IsOutcome answer _ signature s =
      (inr (ground arith, ground arith), inl (refl, refl))

  use_cache-IsGood :
      (cached : Option CheckResult)
      → IsCache cached
      → let r = use_cache sys build cached in
        IsGood r ⊎ ((r.status ≢ available) × (r.status ≢ up_to_date))
  use_cache-IsGood none c = inr (ground arith, ground arith)
  use_cache-IsGood (some r) c = inl (record {
    source = c.source;
    kept = c.kept;
    verified = c.verified;
    passed = c.passed;
    by_launcher = c.by_launcher;
    installed = c.installed;
    by_payload = c.by_payload;
    verdict = c.verdict;
  })

  use_answer-IsOutcome :
      (answer : HttpResult) (status : HttpStatus) (s : Session W)
      → IsCache s.verified
      → IsOutcome s (use_answer sys build answer status s)
  use_answer-IsOutcome answer not_modified s c = (use_cache-IsGood s.verified c, inl (refl, refl))
  use_answer-IsOutcome answer http_ok s c =
      unfold fetch_signature in
      let (signature, w) = sys.get _ 1024 [] s.world in
      use_signature-IsOutcome answer signature.status signature.body (with_world s w)
  use_answer-IsOutcome answer _ s c = (inr (ground arith, ground arith), inl (refl, refl))

  -- Where the cache holds nothing or a good result, a check returns a good result, or one that says
  -- neither `available` nor `up_to_date`. It leaves the cache and the etag as they were, or stores the
  -- result, which is then good. So without a verified signature no check offers an update, whatever
  -- the servers answer.
  pub check_now-IsOutcome :
      (enabled : Bool) (s : Session W)
      → IsCache s.verified
      → IsOutcome s (check_now sys build enabled s)
  unfolding check_now
  check_now-IsOutcome false s c = (inr (ground arith, ground arith), inl (refl, refl))
  check_now-IsOutcome true s c =
      let (answer, w) = sys.get _ (64 * 1024) s.etag s.world in
      use_answer-IsOutcome answer answer.status (with_world s w) c

  -- The sessions that calls reach, where anything may happen in the world between them.
  pub data Reach : Session W → Type 0 where
    opened : (w : W) → Reach (record { etag = []; verified = none; world = w })
    moved : {s : Session W} → (w : W) → Reach s → Reach (with_world s w)
    checked : {s : Session W} → (enabled : Bool) → Reach s → Reach (check_now sys build enabled s).1
    downloaded :
        {s : Session W}
        → (updates : Bytes) (artifact : Artifact) (name : Bytes) → Reach s
        → Reach (download_verified sys build updates artifact name s).1

  kept-IsCache :
      (s : Session W) (r : CheckResult) (t : Session W)
      → IsCache s.verified
      → IsOutcome s (r, t)
      → IsCache t.verified
  kept-IsCache s r t c o = elim o.1 [
    | inl (same, e) ↦ subst IsCache (sym same) c
    | inr (stored, good) ↦ subst IsCache (sym stored) good
  ]

  download_verified-verified :
      (updates : Bytes) (artifact : Artifact) (name : Bytes) (s : Session W)
      → (download_verified sys build updates artifact name s).1.verified ≡ s.verified
  unfolding download_verified
  download_verified-verified updates artifact name s = ground arith

  -- In every session that is reached the cache holds nothing, or the judgement of a manifest whose
  -- signature was verified.
  pub Reach-IsCache : {s : Session W} → Reach s → IsCache s.verified
  Reach-IsCache (opened w) = tt
  Reach-IsCache (moved w r) = Reach-IsCache r
  Reach-IsCache (checked {s = s} enabled r) =
      let (result, t) = check_now sys build enabled s in
      kept-IsCache s result t (Reach-IsCache r) (check_now-IsOutcome enabled s (Reach-IsCache r))
  Reach-IsCache (downloaded {s = s} updates artifact name r) =
      subst IsCache (sym (download_verified-verified updates artifact name s)) (Reach-IsCache r)
