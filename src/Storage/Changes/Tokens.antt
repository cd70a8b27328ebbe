-- ===== src/Storage/Changes/Tokens.antt =====
-- SyncToken and ParseSyncToken of src/svc/internal/storage/dav.go.
use dcalcon.Base.{
  ℕ, ◌≤◌, false, true, not, some, [], ◌≡◌, refl, all, all-append, same, is_space, trim_space,
  trim_space_id, none_pass, has_prefix-append, trim_prefix-append,
}
use dcalcon.Decimal.{max_int64, format_int}
use dcalcon.Decimal.RoundTrip.{parse_int-format_int, format_int-spaceless}
use dcalcon.Storage.Changes.{sync_prefix, sync_token, parse_sync_token}

sync_token-spaceless : (n : ℕ) → none_pass is_space (sync_token n) ≡ true
unfolding sync_token
sync_token-spaceless n =
    rw (all-append (λ c. not (is_space c)) sync_prefix (format_int n), format_int-spaceless n)
      (unfold all is_space in refl)

pub same-sync_token_nil : (n : ℕ) → same (sync_token n) [] ≡ false
unfolding sync_token same
same-sync_token_nil n = refl

pub trim_space-sync_token : (n : ℕ) → trim_space (sync_token n) ≡ sync_token n
trim_space-sync_token n = trim_space_id (sync_token n) (sync_token-spaceless n)

-- A token that SyncToken writes for an int64 is read back by ParseSyncToken.
pub parse_sync_token-sync_token : (n : ℕ) → n ≤ max_int64 → parse_sync_token (sync_token n) ≡ some n
unfolding parse_sync_token
parse_sync_token-sync_token n h =
    rw (trim_space-sync_token n, same-sync_token_nil n)
      (unfold sync_token in
        rw (
          has_prefix-append sync_prefix (format_int n),
          trim_prefix-append sync_prefix (format_int n),
          parse_int-format_int n h,
        ))
