-- ===== src/Update/Manager/Notify.antt =====
-- `ShouldNotify` of update/UpdateCheckService.cpp: which results of a check are shown.
use cheburnet.Base.{
  ◌≡◌, Bool, true, false, not, ◌&&◌, ◌||◌, none, some, [], Bytes, bytes_eq, arith, bytes_eq_iff,
}
use cheburnet.Update.Manager.{CheckResult, CheckStatus, rejected, available, is_upgrade}

abbrev is_rejected : CheckStatus → Bool
is_rejected rejected = true
is_rejected _ = false

abbrev is_available : CheckStatus → Bool
is_available available = true
is_available _ = false

-- `result.manifest.payload.version`, of which the source's empty manifest has an empty one.
abbrev pub payload_version : CheckResult → Bytes
payload_version result = elim result.manifest [ none ↦ [] | some m ↦ m.payload.version ]

unfoldable pub should_notify : CheckResult → Bytes → Bool
should_notify result skipped =
    is_rejected result.status
    || (is_available result.status
        && (is_upgrade result.launcher
            || (is_upgrade result.payload && not (bytes_eq (payload_version result) skipped))))

-- Naming a version to skip silences nothing but the offer of that version: a result that is shown
-- while one version is skipped, and not while another is, offers no new launcher, and its payload is
-- an upgrade to the second version.
pub should_notify-skipped :
    (result : CheckResult) (a b : Bytes)
    → should_notify result a ≡ true
    → should_notify result b ≡ false
    → (result.status ≡ available)
      × ((is_upgrade result.launcher ≡ false)
          × ((is_upgrade result.payload ≡ true) × (payload_version result ≡ b)))
unfolding should_notify
should_notify-skipped result a b h k =
    ground (arith, bytes_eq_iff (payload_version result) a, bytes_eq_iff (payload_version result) b)
