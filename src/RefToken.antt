-- ===== src/RefToken.antt =====
-- crates/core/src/ref_token.rs: refs qualified by the snapshot that they belong to.
pub mod RoundTrip
use agent_desktop.SnapshotId.{validate_snapshot_id}
use agent_desktop.Prelude.{
  Bool, all, is_empty, is_some_and, leb, ltb, not, unwrap_or, ◌&&◌, ◌++◌, Option, Result, guard,
  if◌then◌else◌, none, ok, ok_or, ◌>>=◌, ◌>>◌,
}
use agent_desktop.Text.{Text, codes, is_ascii_digit, len, strip_prefix, rsplit_once, text_eq}
use agent_desktop.Text.Decimal.{parse_u32}
use agent_desktop.Error.{AppError, invalid_input, invalid_input_with_suggestion}

unfoldable pub qualify_ref_id : Text → Text → Text
unfolding strip_prefix
qualify_ref_id snapshot_id local_ref =
    codes "@"
    ++ (snapshot_id ++ (codes ":" ++ unwrap_or (strip_prefix (codes "@") local_ref) local_ref))

-- The test on what follows `@e`.
unfoldable pub is_element_number : Text → Bool
unfolding is_ascii_digit len parse_u32
is_element_number ds =
    not (is_empty ds)
    && (leb (len ds) 10
        && (all is_ascii_digit ds && is_some_and (parse_u32 ds) (λ number. ltb 0 number)))

unfoldable pub is_local_ref : Text → Bool
unfolding strip_prefix is_element_number
is_local_ref ref_id = is_some_and (strip_prefix (codes "@e") ref_id) is_element_number

abbrev pub invalid_ref : AppError
invalid_ref =
    invalid_input
      "Invalid ref_id '{ref_id}': expected @<snapshot_id>:e<N> or legacy @e<N> with an explicit snapshot"

abbrev pub bare_ref : AppError
bare_ref =
    invalid_input_with_suggestion "Bare refs require an explicit snapshot_id"
      "Use the snapshot-qualified ref returned by snapshot, or pass --snapshot with a legacy @eN ref."

abbrev pub snapshot_mismatch : AppError
snapshot_mismatch =
    invalid_input_with_suggestion "Ref snapshot does not match the explicit snapshot_id"
      "Use the snapshot_id embedded in the ref, or pass a ref from the requested snapshot."

-- The branch of a ref that names no snapshot itself.
unfoldable pub resolve_local : Text → Option Text → Result AppError (Text × Text)
unfolding validate_snapshot_id
resolve_local ref_id explicit = do
  snapshot_id ← ok_or explicit bare_ref
  validate_snapshot_id snapshot_id
  ok (snapshot_id, ref_id)

-- The branch of a ref that is qualified by its snapshot.
unfoldable pub resolve_qualified : Text → Option Text → Result AppError (Text × Text)
resolve_qualified ref_id explicit = do
  without_at ← ok_or (strip_prefix (codes "@") ref_id) invalid_ref
  (snapshot_id, element_number) ← ok_or (rsplit_once (codes ":e") without_at) invalid_ref
  validate_snapshot_id snapshot_id
  let local_ref = codes "@e" ++ element_number
  guard (is_local_ref local_ref) invalid_ref
  guard (not (is_some_and explicit (λ e. not (text_eq e snapshot_id)))) snapshot_mismatch
  ok (snapshot_id, local_ref)

unfoldable pub resolve_ref_target : Text → Option Text → Result AppError (Text × Text)
resolve_ref_target ref_id explicit_snapshot_id =
    if is_local_ref ref_id
    then resolve_local ref_id explicit_snapshot_id
    else resolve_qualified ref_id explicit_snapshot_id

unfoldable pub validate_ref_token : Text → Result AppError (Unit {0})
validate_ref_token ref_id =
    if is_local_ref ref_id then ok tt else (resolve_ref_target ref_id none >>= λ _. ok tt)
