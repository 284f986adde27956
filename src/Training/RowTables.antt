-- ===== src/Training/RowTables.antt =====
-- A table kept as its list of rows, in the order of insertion: an instance of the interface to the
-- database, on which its laws hold.
use hyper_looms.Prelude.{
  String, ◌≡◌, ap, refl, Bool, true, false, ◌||◌, Option, none, some, List, [], ◌∷◌, map, arith,
  ◌==◌, string_eq, beq_refl, Bool-cases, inl, inr, if◌then◌else◌, if_ind, filter, contains, All,
  IsNodup,
}
use hyper_looms.Training.Tables.{TableOps, TableLaws}

module _ (Row : Type 0) (key : Row → String) where
  abbrev keys : List Row → List String
  keys rows = map key rows

  abbrev find_row : List Row → String → Option Row
  find_row [] k = none
  find_row (r ∷ rows) k = if key r == k then some r else find_row rows k

  abbrev put_row : Row → List Row → List Row
  put_row r [] = r ∷ []
  put_row r (x ∷ rows) = if key x == key r then r ∷ rows else x ∷ put_row r rows

  find_row-put_row :
      (r : Row) (rows : List Row) (k : String)
      → find_row (put_row r rows) k ≡ (if key r == k then some r else find_row rows k)
  find_row-put_row r [] k = refl
  find_row-put_row r (x ∷ rows) k = ground (
    arith,
    find_row-put_row r rows k,
    string_eq.beq_iff (key r) k,
    string_eq.beq_iff (key x) (key r),
    string_eq.beq_iff (key x) k,
  )

  contains-put_row :
      (r : Row) (rows : List Row) (k : String)
      → contains k (keys (put_row r rows)) ≡ (k == key r || contains k (keys rows))
  contains-put_row r [] k = refl
  contains-put_row r (x ∷ rows) k = ground (
    arith,
    contains-put_row r rows k,
    string_eq.beq_iff k (key x),
    string_eq.beq_iff (key x) (key r),
    string_eq.beq_iff k (key r),
  )

  pub put_row-IsNodup :
      (r : Row) (rows : List Row) → IsNodup (keys rows) → IsNodup (keys (put_row r rows))
  put_row-IsNodup r [] u = (refl, tt)
  put_row-IsNodup r (x ∷ rows) (out, u) = elim (Bool-cases (key x == key r)) [
    | inl same ↦ rw same (
      ground (arith, ap (λ k. contains k (keys rows)) ((string_eq.beq_iff (key x) (key r)).0 same)),
      u,
    )
    | inr other ↦
        rw other (ground (arith, contains-put_row r rows (key x)), put_row-IsNodup r rows u)
  ]

  find_row-key : (rows : List Row) (k : String) (r : Row) → find_row rows k ≡ some r → key r ≡ k
  find_row-key [] k r e = absurd (ground arith)
  find_row-key (x ∷ rows) k r e = elim (Bool-cases (key x == k)) [
    | inl same ↦ ground (arith, string_eq.beq_iff (key x) k)
    | inr other ↦ find_row-key rows k r (ground arith)
  ]

  abbrev Found : List Row → Row → Type 0
  Found rows r = find_row rows (key r) ≡ some r

  Found-later :
      (x : Row) (rows some_rows : List Row)
      → contains (key x) (keys some_rows) ≡ false
      → All (Found rows) some_rows
      → All (Found (x ∷ rows)) some_rows
  Found-later x rows [] out a = tt
  Found-later x rows (r ∷ rs) out (here, a) =
      (ground (arith, here), Found-later x rows rs (ground arith) a)

  All-Found : (rows : List Row) → IsNodup (keys rows) → All (Found rows) rows
  All-Found [] u = tt
  All-Found (x ∷ rows) (out, u) =
      (ground (arith, beq_refl (key x)), Found-later x rows rows out (All-Found rows u))

  All-filter :
      (P : Row → Type 0) (p : Row → Bool) (rows : List Row) → All P rows → All P (filter p rows)
  All-filter P p [] a = tt
  All-filter P p (r ∷ rows) (here, a) =
      let rest = All-filter P p rows a in if_ind (All P) (p r) (λ _. (here, rest)) (λ _. rest)

  absent-filter :
      (p : Row → Bool) (k : String) (rows : List Row)
      → contains k (keys rows) ≡ false
      → contains k (keys (filter p rows)) ≡ false
  absent-filter p k [] out = refl
  absent-filter p k (r ∷ rows) out =
      let rest = absent-filter p k rows (ground arith) in ground (arith, rest)

  filter-IsNodup :
      (p : Row → Bool) (rows : List Row) → IsNodup (keys rows) → IsNodup (keys (filter p rows))
  filter-IsNodup p [] u = tt
  filter-IsNodup p (r ∷ rows) (out, u) =
      let rest = filter-IsNodup p rows u in
      if_ind (λ rs. IsNodup (keys rs)) (p r) (λ _. (absent-filter p (key r) rows out, rest))
        (λ _. rest)

  contains-find_row :
      (p : Row → Bool) (rows : List Row) (k : String) (r : Row)
      → find_row rows k ≡ some r
      → p r ≡ true
      → contains k (keys (filter p rows)) ≡ true
  contains-find_row p [] k r e h = absurd (ground arith)
  contains-find_row p (x ∷ rows) k r e h = elim (Bool-cases (key x == k)) [
    | inl same ↦
        let it : x ≡ r = ground arith in
        ground (arith, ap p it, h, string_eq.beq_iff (key x) k, string_eq.beq_iff k (key x))
    | inr other ↦ let rest = contains-find_row p rows k r (ground arith) h in ground (arith, rest)
  ]

  abbrev pub row_table : TableOps Row key
  row_table = record {
    Table = (rows : List Row) × IsNodup (keys rows);
    find = λ t k. find_row t.0 k;
    insert = λ r t. (put_row r t.0, put_row-IsNodup r t.0 t.1);
    update = λ r t. (put_row r t.0, put_row-IsNodup r t.0 t.1);
    select_desc = λ rank p t. filter p t.0;
  }

  pub row_table-TableLaws : TableLaws Row key row_table
  row_table-TableLaws = record {
    find-insert = λ r t k fresh. find_row-put_row r t.0 k;
    find-update = λ r t k there. find_row-put_row r t.0 k;
    find_key = λ t k r found. find_row-key t.0 k r found;
    select_found = λ rank p t. All-filter (Found t.0) p t.0 (All-Found t.0 t.1);
    select_complete = λ rank p t k r found h. contains-find_row p t.0 k r found h;
    select_once = λ rank p t. filter-IsNodup p t.0 t.1;
  }
