-- ===== src/NodeQuery/Clauses.antt =====
-- crates/core/src/live_locator/compiled_clause.rs: a query with its nested queries as a list of
-- clauses, a nested one before the clause that names it.
use agent_desktop.Prelude.{
  List, Option, [], none, some, ℕ, ◌++◌, ◌∷◌, ◌≡◌, ◌<◌, ◌≤◌, suc, zero, length-append, append_assoc,
  append-nil, sym, arith, refl, ◌∙◌, ap, get_elem?, length,
}
use agent_desktop.Locator.{LocatorQuery}
use agent_desktop.NodeQuery.{NestedQuery, TreeQuery, clause, nested, no_query}

pub record CompiledClause : Type 0 where
  pub query : TreeQuery
  pub has : Option ℕ
  pub has_not : Option ℕ

-- `compile_clauses`, with the clauses it has pushed.
unfoldable mutual
  pub compile_clauses : TreeQuery → List CompiledClause → ℕ × List CompiledClause
  compile_clauses (clause query has has_not) clauses =
      let first = compile_nested has clauses in
      let second = compile_nested has_not first.1 in
      (
        length second.1,
        second.1
            ++ (record { query = clause query has has_not; has = first.0; has_not = second.0 }
                ∷ []),
      )

  pub compile_nested : NestedQuery → List CompiledClause → Option ℕ × List CompiledClause
  compile_nested no_query clauses = (none, clauses)
  compile_nested (nested query) clauses =
      let compiled = compile_clauses query clauses in (some compiled.0, compiled.1)

-- At an index stands the clause of a query, and its nested queries stand before it.
unfoldable mutual
  pub Compiled : List CompiledClause → TreeQuery → ℕ → Type 0
  Compiled clauses (clause query has has_not) i =
      (c : CompiledClause) × (get_elem? clauses i ≡ some c)
      × (c.query ≡ clause query has has_not)
      × CompiledBefore clauses has i c.has
      × CompiledBefore clauses has_not i c.has_not

  pub CompiledBefore : List CompiledClause → NestedQuery → ℕ → Option ℕ → Type 0
  CompiledBefore clauses no_query i index = index ≡ none
  CompiledBefore clauses (nested query) i index =
      (j : ℕ) × (index ≡ some j) × (j < i) × Compiled clauses query j

-- A list that starts with another one.
abbrev pub Extends : {A : Type 0} → List A → List A → Type 0
Extends {A} xs ys = (more : List A) × (ys ≡ xs ++ more)

get_elem?-append :
    {A : Type 0} (xs ys : List A) (i : ℕ) (a : A)
    → get_elem? xs i ≡ some a
    → get_elem? (xs ++ ys) i ≡ some a
get_elem?-append [] ys i a h = ground arith
get_elem?-append (x ∷ xs) ys zero a h = h
get_elem?-append (x ∷ xs) ys (suc i) a h = get_elem?-append xs ys i a h

get_elem?-last :
    {A : Type 0} (xs : List A) (a : A) → get_elem? (xs ++ (a ∷ [])) (length xs) ≡ some a
get_elem?-last [] a = refl
get_elem?-last (x ∷ xs) a = get_elem?-last xs a

get_elem?-Extends :
    {A : Type 0} (xs ys : List A) (i : ℕ) (a : A)
    → Extends xs ys
    → get_elem? xs i ≡ some a
    → get_elem? ys i ≡ some a
get_elem?-Extends xs ys i a (more, e) h =
    ap (λ zs. get_elem? zs i) e ∙ get_elem?-append xs more i a h

length-Extends : {A : Type 0} (xs ys : List A) → Extends xs ys → length xs ≤ length ys
length-Extends xs ys (more, e) = omega (arith, ap length e, length-append xs more)

longer_chain : {A : Type 0} (xs ys zs : List A) → Extends xs ys → Extends ys zs → Extends xs zs
longer_chain xs ys zs (m, e) (n, f) = (m ++ n, f ∙ (ap (λ us. us ++ n) e ∙ append_assoc xs m n))

mutual
  unfolding Compiled

  Compiled-Extends :
      (xs ys : List CompiledClause) (query : TreeQuery) (i : ℕ)
      → Extends xs ys
      → Compiled xs query i
      → Compiled ys query i
  Compiled-Extends xs ys (clause query has has_not) i more (c, at_i, same, h, k) = (
    c,
    get_elem?-Extends xs ys i c more at_i,
    same,
    CompiledBefore-Extends xs ys has i i c.has more (omega arith) h,
    CompiledBefore-Extends xs ys has_not i i c.has_not more (omega arith) k,
  )

  CompiledBefore-Extends :
      (xs ys : List CompiledClause) (query : NestedQuery) (i k : ℕ) (index : Option ℕ)
      → Extends xs ys
      → i ≤ k
      → CompiledBefore xs query i index
      → CompiledBefore ys query k index
  CompiledBefore-Extends xs ys no_query i k index more le h = h
  CompiledBefore-Extends xs ys (nested query) i k index more le (j, e, lt, h) =
      (j, e, omega arith, Compiled-Extends xs ys query j more h)

-- What compiling adds: the clauses there were stand first, and the query's own clause stands last.
abbrev pub IsCompiled : List CompiledClause → TreeQuery → ℕ → List CompiledClause → Type 0
IsCompiled clauses query i pushed =
    Extends clauses pushed × (suc i ≡ length pushed) × Compiled pushed query i

abbrev pub IsCompiledBefore :
    List CompiledClause → NestedQuery → Option ℕ → List CompiledClause → Type 0
IsCompiledBefore clauses query index pushed =
    Extends clauses pushed × CompiledBefore pushed query (length pushed) index

-- The step that pushes a query's own clause after the ones of its nested queries.
push-IsCompiled :
    (clauses first second : List CompiledClause) (query : LocatorQuery) (has has_not : NestedQuery)
    (i j : Option ℕ)
    → IsCompiledBefore clauses has i first
    → IsCompiledBefore first has_not j second
    → IsCompiled clauses
        (clause query has has_not)
        (length second)
        (second ++ (record { query = clause query has has_not; has = i; has_not = j } ∷ []))
unfolding Compiled
push-IsCompiled clauses first second query has has_not i j (e, h) (f, k) =
    let own : CompiledClause = record { query = clause query has has_not; has = i; has_not = j } in
    let pushed = second ++ (own ∷ []) in
    let last : Extends second pushed = (own ∷ [], refl) in
    (
      longer_chain clauses first pushed e (longer_chain first second pushed f last),
      omega (arith, length-append second (own ∷ [])),
      (
        own,
        get_elem?-last second own,
        refl,
        CompiledBefore-Extends first pushed has (length first) (length second) i
            (longer_chain first second pushed f last) (length-Extends first second f) h,
        CompiledBefore-Extends second pushed has_not (length second) (length second) j last
            (omega arith) k,
      ),
    )

mutual
  unfolding Compiled compile_clauses

  compiled_clause :
      (query : TreeQuery) (clauses : List CompiledClause)
      → IsCompiled clauses query (compile_clauses query clauses).0 (compile_clauses query clauses).1
  compiled_clause (clause query has has_not) clauses =
      let first = compile_nested has clauses in
      let second = compile_nested has_not first.1 in
      push-IsCompiled clauses first.1 second.1 query has has_not first.0 second.0
        (compiled_nested has clauses) (compiled_nested has_not first.1)

  compiled_nested :
      (query : NestedQuery) (clauses : List CompiledClause)
      → IsCompiledBefore clauses query
          (compile_nested query clauses).0
          (compile_nested query clauses).1
  compiled_nested no_query clauses = (([], sym (append-nil clauses)), refl)
  compiled_nested (nested query) clauses =
      let (more, at_end, h) = compiled_clause query clauses in
      (more, ((compile_clauses query clauses).0, refl, omega (arith, at_end), h))

-- For every query and all clauses pushed before: `compile_clauses` keeps these in front, the index
-- that it returns is the last one, at which the clause of the query stands, and its nested queries,
-- where it has them, stand at smaller indices, which the clause names, and so on down.
pub compile_clauses-IsCompiled :
    (query : TreeQuery) (clauses : List CompiledClause)
    → IsCompiled clauses query (compile_clauses query clauses).0 (compile_clauses query clauses).1
compile_clauses-IsCompiled query clauses = compiled_clause query clauses
