-- ===== src/NodeQuery/Limits.antt =====
-- crates/core/src/live_locator/validate.rs: the limits of a query, and that an accepted query
-- compiles within them.
use agent_desktop.Prelude.{
  >>=-eq-ok, leb→le, ok-injective, Bool, List, Option, Result, [], arith, err, flatten_options,
  guard, guard-eq-ok, if◌then◌else◌, leb, length, length-append, ltb, none, ok, some, suc, true, ℕ,
  ◌+◌, ◌>>=◌, ◌>>◌, ◌∷◌, ◌≡◌, ◌≤◌, ap,
}
use agent_desktop.Text.{Text, len}
use agent_desktop.Error.{AdapterError, invalid_args, new}
use agent_desktop.Roles.{is_valid_role_query}
use agent_desktop.Locator.{LocatorQuery}
use agent_desktop.NodeQuery.{NestedQuery, TreeQuery, clause, nested, no_query, validate_states}
use agent_desktop.NodeQuery.Clauses.{CompiledClause, compile_clauses, compile_nested}

abbrev pub max_query_clauses : ℕ
max_query_clauses = 64

abbrev pub max_query_field_bytes : ℕ
max_query_field_bytes = 4096

abbrev pub max_query_total_bytes : ℕ
max_query_total_bytes = 65536

-- `usize::saturating_add` at 64 bits.
abbrev pub saturating_add : ℕ → ℕ → ℕ
saturating_add a b = if leb (a + b) 18446744073709551615 then a + b else 18446744073709551615

abbrev pub too_many_clauses : AdapterError
too_many_clauses = new invalid_args "LocatorQuery may contain at most {} recursive clauses"

abbrev pub unknown_role_query : AdapterError
unknown_role_query = new invalid_args "Unknown role query '{}'"

abbrev pub field_too_long : AdapterError
field_too_long = new invalid_args "Locator query field exceeds {} bytes"

abbrev pub query_too_long : AdapterError
query_too_long = new invalid_args "Locator query exceeds {} aggregate bytes"

abbrev pub role_is_known : Option Text → Bool
role_is_known none = true
role_is_known (some role) = is_valid_role_query role

-- The loop over the texts of a query, with the bytes so far.
unfoldable pub validate_fields : List Text → ℕ → Result AdapterError ℕ
unfolding len
validate_fields [] total = ok total
validate_fields (value ∷ values) total =
    let added = saturating_add total (len value) in
    let rest = validate_fields values added in
    if ltb max_query_field_bytes (len value)
    then err field_too_long
    else if ltb max_query_total_bytes added
    then err query_too_long
    else rest

abbrev pub query_fields : LocatorQuery → List Text
query_fields query = flatten_options (
    query.identity.role ∷ query.identity.name ∷ query.identity.description
    ∷ query.identity.native_id ∷ query.identity.value ∷ query.has_text ∷ [])

-- `validate_clause`, on the counts of clauses and of bytes.
unfoldable mutual
  unfolding validate_fields is_valid_role_query

  pub validate_clause : TreeQuery → ℕ × ℕ → Result AdapterError (ℕ × ℕ)
  validate_clause (clause query has has_not) counts =
      guard (leb (suc counts.0) max_query_clauses) too_many_clauses
      >> (guard (role_is_known query.identity.role) unknown_role_query
          >> (validate_fields (query_fields query) counts.1 >>= λ total.
              (validate_inner has (suc counts.0, total) >>= λ after_has.
              validate_inner has_not after_has)))

  pub validate_inner : NestedQuery → ℕ × ℕ → Result AdapterError (ℕ × ℕ)
  validate_inner no_query counts = ok counts
  validate_inner (nested query) counts = validate_clause query counts

unfoldable pub validate_query : TreeQuery → Result AdapterError (Unit {0})
unfolding validate_states validate_clause
validate_query query = validate_states query >> (validate_clause query (0, 0) >>= λ counts. ok tt)

-- What an accepted clause passes: its number is within the limit, and its nested queries are accepted
-- one after the other.
abbrev pub ClauseChecked : LocatorQuery → NestedQuery → NestedQuery → ℕ × ℕ → ℕ × ℕ → Type 0
ClauseChecked query has has_not counts after =
    (suc counts.0 ≤ max_query_clauses)
    × ((total : ℕ) × (middle : ℕ × ℕ) × (validate_inner has (suc counts.0, total) ≡ ok middle)
        × (validate_inner has_not middle ≡ ok after))

clause-ClauseChecked :
    (query : LocatorQuery) (has has_not : NestedQuery) (counts after : ℕ × ℕ)
    → validate_clause (clause query has has_not) counts ≡ ok after
    → ClauseChecked query has has_not counts after
unfolding validate_clause
clause-ClauseChecked query has has_not counts after h =
    let (u, few, h1) =
      >>=-eq-ok (guard (leb (suc counts.0) max_query_clauses) too_many_clauses)
        (λ v.
          guard (role_is_known query.identity.role) unknown_role_query
          >> (validate_fields (query_fields query) counts.1 >>= λ total.
              (validate_inner has (suc counts.0, total) >>= λ after_has.
              validate_inner has_not after_has)))
        h in
    let (v, known, h2) =
      >>=-eq-ok (guard (role_is_known query.identity.role) unknown_role_query)
        (λ v. validate_fields (query_fields query) counts.1 >>= λ total.
          (validate_inner has (suc counts.0, total) >>= λ after_has.
          validate_inner has_not after_has))
        h1 in
    let (total, fields, h3) =
      >>=-eq-ok (validate_fields (query_fields query) counts.1)
        (λ total. validate_inner has (suc counts.0, total) >>= λ after_has.
          validate_inner has_not after_has)
        h2 in
    let (middle, left, right) =
      >>=-eq-ok (validate_inner has (suc counts.0, total))
        (λ after_has. validate_inner has_not after_has) h3 in
    (
      leb→le (suc counts.0) max_query_clauses
          (guard-eq-ok (leb (suc counts.0) max_query_clauses) too_many_clauses few),
      (total, middle, left, right),
    )

-- The clauses that compiling adds are the ones that the check has counted.
mutual
  unfolding validate_clause compile_clauses

  counted_clause :
      (query : TreeQuery) (counts after : ℕ × ℕ) (clauses : List CompiledClause)
      → validate_clause query counts ≡ ok after
      → (after.0 ≤ max_query_clauses)
        × (length (compile_clauses query clauses).1 + counts.0 ≡ length clauses + after.0)
  counted_clause (clause query has has_not) counts after clauses h =
      let (bound, (total, middle, left, right)) =
        clause-ClauseChecked query has has_not counts after h in
      let first = compile_nested has clauses in
      let second = compile_nested has_not first.1 in
      let (le_middle, at_middle) =
        counted_nested has (suc counts.0, total) middle clauses bound left in
      let (le_after, at_after) = counted_nested has_not middle after first.1 le_middle right in
      let pushed =
        length-append second.1
          (record { query = clause query has has_not; has = first.0; has_not = second.0 } ∷ []) in
      (le_after, omega (arith, pushed, at_middle, at_after))

  counted_nested :
      (query : NestedQuery) (counts after : ℕ × ℕ) (clauses : List CompiledClause)
      → counts.0 ≤ max_query_clauses
      → validate_inner query counts ≡ ok after
      → (after.0 ≤ max_query_clauses)
        × (length (compile_nested query clauses).1 + counts.0 ≡ length clauses + after.0)
  counted_nested no_query counts after clauses le h =
      let same = ap (λ c. c.0) (ok-injective h) in (omega (arith, same), omega (arith, same))
  counted_nested (nested query) counts after clauses le h =
      counted_clause query counts after clauses h

-- An accepted query compiles to at most 64 clauses.
pub validate_query-compile_clauses :
    (query : TreeQuery)
    → validate_query query ≡ ok tt
    → length (compile_clauses query []).1 ≤ max_query_clauses
unfolding validate_query
validate_query-compile_clauses query h =
    let (u, states, h1) =
      >>=-eq-ok (validate_states query) (λ v. validate_clause query (0, 0) >>= λ counts. ok tt) h in
    let (after, counted, done) = >>=-eq-ok (validate_clause query (0, 0)) (λ counts. ok tt) h1 in
    let (le, at) = counted_clause query (0, 0) after [] counted in omega (arith, le, at)
