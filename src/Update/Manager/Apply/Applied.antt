-- ===== src/Update/Manager/Apply/Applied.antt =====
-- What has happened when `ApplyPayload` says that an update was applied.
use cheburnet.Base.{
  ◌≡◌, refl, sym, ◌∙◌, ◌≢◌, ap, subst, inl, inr, Bool, true, not, ◌&&◌, Option, none, some,
  bytes_eq, bytes_eq_iff, arith, Bool-cases, &&-true, if◌then◌else◌,
}
use cheburnet.Core.Paths.{RuntimePaths}
use cheburnet.Update.Manifest.{Manifest}
use cheburnet.Update.StateStore.{StoredRuntimeState}
use cheburnet.Update.Package.Header.{PackageInfo}
use cheburnet.Update.Manager.{CheckResult, System, Build, Session, same_artifact}
use cheburnet.Update.Manager.Trust.{IsVerified, IsCache, Reach, Reach-IsCache}
use cheburnet.Update.Manager.Download.{same_artifact-eq}
use cheburnet.Update.Manager.Apply.{
  Machine, PayloadApplyStatus, PayloadApplyResult, applied, preflight_rejected, package_rejected,
  is_trusted, is_newer, stored_state, is_staged, read_package, paths_of,
}
use cheburnet.Update.Manager.Apply.Candidate.{
  Request, with_package, candidate_paths, clean, apply_stored, with_state, apply_payload,
}
use cheburnet.Update.Manager.Apply.Guards.{
  IsNewer, is_newer-IsNewer, IsStaged, is_staged-IsStaged, HasHeader, read_package-HasHeader,
}
use cheburnet.Update.Manager.Apply.Installed.{IsInstalled, if_cleaned-IsInstalled}

module _ {W P : Type 0} (sys : System W) (machine : Machine W P) (build : Build)
    (paths : RuntimePaths) (q : Request P) where
  -- The payload is that of a manifest whose signature was verified, under the key that signed it.
  pub record IsTrusted : Type 0 where
    pub source : Manifest
    pub verified : IsVerified sys build source
    pub payload : source.payload ≡ q.artifact
    pub key : q.key_id ≡ source.key_id

  is_trusted-IsTrusted :
      (cached : Option CheckResult)
      → IsCache sys build cached
      → is_trusted q.artifact q.key_id cached ≡ true
      → IsTrusted
  is_trusted-IsTrusted none c h = absurd (ground arith)
  is_trusted-IsTrusted (some r) c h =
      let m = c.source in
      let kept = c.kept in
      let both : (bytes_eq q.key_id m.key_id && same_artifact m.payload q.artifact) ≡ true =
        ground arith in
      let (key, payload) =
        &&-true (bytes_eq q.key_id m.key_id) (same_artifact m.payload q.artifact) both in
      record {
        source = m;
        verified = c.verified;
        payload = same_artifact-eq m.payload q.artifact payload;
        key = (bytes_eq_iff q.key_id m.key_id).0 key;
      }

  -- What an applied update was, from the world `w` to the world `after`; the directory of the candidate is
  -- that of the payload's version.
  pub record IsApplied (w : W) (result : PayloadApplyResult) (after : W) : Type 0 where
    pub trusted : IsTrusted
    pub stored : StoredRuntimeState
    pub loaded : stored_state sys build paths (sys.state_file w) ≡ some stored
    pub newer : IsNewer stored.current q.artifact
    pub staged : IsStaged sys build paths q.artifact q.staged w
    pub info : PackageInfo
    pub header : HasHeader sys build paths q.artifact q.staged w info
    pub installed :
        IsInstalled sys machine build paths q stored info
          (paths_of sys machine build q.artifact.version w)
          w
          after
    pub from : result.previous_version ≡ stored.current
    pub to : result.candidate_version ≡ q.artifact.version

  with_package-IsInstalled :
      (stored : StoredRuntimeState) (found : Option PackageInfo) (w : W)
      → let end = with_package sys machine build paths q stored found w in
        (end.0 ≡ applied)
        → (info : PackageInfo) × ((found ≡ some info)
            × IsInstalled sys machine build paths q stored info
                (paths_of sys machine build q.artifact.version w)
                w
                end.1)
  with_package-IsInstalled stored none w h = absurd (ground arith)
  with_package-IsInstalled stored (some info) w h =
      let home = candidate_paths sys machine build paths q w in
      (
        info,
        (
          refl,
          if_cleaned-IsInstalled sys machine build paths q stored info home w
              (clean sys machine build paths q home w) refl h,
        ),
      )

  -- A result `applied` behind two guards that refuse passed both.
  if-guards :
      (a b : Bool) (x y z : PayloadApplyStatus × W)
      → x.0 ≢ applied
      → y.0 ≢ applied
      → (if not a then x else if not b then y else z).0 ≡ applied
      → (a ≡ true)
        × ((b ≡ true) × ((z.0 ≡ applied) × ((if not a then x else if not b then y else z) ≡ z)))
  if-guards a b x y z n k h = ground arith

  apply_stored-guards :
      (stored : StoredRuntimeState) (w : W)
      → (apply_stored sys machine build paths q stored w).0 ≡ applied
      → (is_newer stored.current q.artifact ≡ true)
        × ((is_staged sys build paths q.artifact q.staged w ≡ true)
            × (((with_package sys machine build paths q stored
                    (read_package sys build paths q.artifact q.staged w)
                    w).0
                  ≡ applied)
                × (apply_stored sys machine build paths q stored w
                    ≡ with_package sys machine build paths q stored
                        (read_package sys build paths q.artifact q.staged w)
                        w)))
  unfolding apply_stored
  apply_stored-guards stored w h =
      if-guards (is_newer stored.current q.artifact)
        (is_staged sys build paths q.artifact q.staged w) (preflight_rejected, w)
        (package_rejected, w)
        (with_package sys machine build paths q stored
          (read_package sys build paths q.artifact q.staged w) w)
        (ground arith) (ground arith) h

  with_state-IsApplied :
      (loaded : Option StoredRuntimeState) (w : W)
      → IsTrusted
      → stored_state sys build paths (sys.state_file w) ≡ loaded
      → let end = with_state sys machine build paths q loaded w in
        (end.0.status ≡ applied) → IsApplied w end.0 end.1
  with_state-IsApplied none w t e h = absurd (ground arith)
  with_state-IsApplied (some stored) w t e h =
      let (newer, (staged, (later, same))) = apply_stored-guards stored w h in
      let (info, (header, installed)) =
        with_package-IsInstalled stored (read_package sys build paths q.artifact q.staged w) w
          later in
      let home = paths_of sys machine build q.artifact.version w in
      record {
        trusted = t;
        stored = stored;
        loaded = e;
        newer = is_newer-IsNewer stored.current q.artifact newer;
        staged = is_staged-IsStaged sys build paths q.artifact q.staged w staged;
        info = info;
        header = read_package-HasHeader sys build paths q.artifact q.staged w {info = info} header;
        installed =
            subst (λ r. IsInstalled sys machine build paths q stored info home w r.1) (sym same)
              installed;
        from = refl;
        to = refl;
      }

  -- The result and the world of `ApplyPayload` behind its first guard.
  apply_payload-with_state :
      (s : Session W)
      → is_trusted q.artifact q.key_id s.verified ≡ true
      → let end = apply_payload sys machine build paths q s in
        (end.0, end.1.world)
        ≡ with_state sys machine build paths q
            (stored_state sys build paths (sys.state_file s.world))
            s.world
  unfolding apply_payload
  apply_payload-with_state s h = rw h refl

  apply_payload-is_trusted :
      (s : Session W)
      → (apply_payload sys machine build paths q s).0.status ≡ applied
      → is_trusted q.artifact q.key_id s.verified ≡ true
  unfolding apply_payload
  apply_payload-is_trusted s h = elim (Bool-cases (is_trusted q.artifact q.key_id s.verified)) [
    | inl e ↦ e
    | inr e ↦ absurd (ground arith)
  ]

  -- In a session that is reached, `ApplyPayload` says `applied` only for the payload of a manifest
  -- whose signature was verified, with the id of its key. The payload is newer than the stored version
  -- and of supported schemas, and the staged file lies below the directory of the updates with the size
  -- and the hash of the payload and a header that agrees with it. From the world of the session the
  -- directory of the payload's version was cleared and the package extracted to it; in the world that
  -- this left, every entry of the package lies in its place below that directory; there the state was
  -- saved that has the payload as pending; every hook of the switch succeeded from there; and the last
  -- state that was written has the payload as current, the stored version as the previous known good,
  -- and nothing pending. The world at the end is the one after that, with the kept process detached and
  -- the candidate's catalog activated.
  pub apply_payload-IsApplied :
      {s : Session W}
      → Reach sys build s
      → (apply_payload sys machine build paths q s).0.status ≡ applied
      → let end = apply_payload sys machine build paths q s in IsApplied s.world end.0 end.1.world
  apply_payload-IsApplied {s = s} r h =
      let trusted = apply_payload-is_trusted s h in
      let same = apply_payload-with_state s trusted in
      let t = is_trusted-IsTrusted s.verified (Reach-IsCache sys build r) trusted in
      let loaded = stored_state sys build paths (sys.state_file s.world) in
      subst (λ end. IsApplied s.world end.0 end.1) (sym same)
        (with_state-IsApplied loaded s.world t refl (ap (λ x. x.0.status) (sym same) ∙ h))
