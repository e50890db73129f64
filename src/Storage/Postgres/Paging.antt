-- ===== src/Storage/Postgres/Paging.antt =====
-- The listing by keyset: the pages that follow the cursors.
use otus_rusthomework_http_a.Common.{
  ℕ, zero, suc, pos, ◌^◌, ◌<◌, String, ◌≡◌, refl, sym, ap, ◌∙◌, subst, Bool, true, false, not, ◌&&◌,
  ◌||◌, Option, none, some, List, [], ◌∷◌, ◌++◌, map, arith, length, length-drop, take, drop,
  take-append-drop, last, last-split, filter, filter-All, All, All-middle, eq_ℤ, leb_ℤ,
}
use mathlib.Core.List.{append_assoc, map-append}
use otus_rusthomework_http_a.Common.Outcome.{ok, err, panic}
use otus_rusthomework_http_a.Common.Sorting.{Pairwise}
use otus_rusthomework_http_a.Common.Time.{SystemTime}
use otus_rusthomework_http_a.Domain.Link.{ShortLink}
use otus_rusthomework_http_a.Server.Cache.{as_i64}
use otus_rusthomework_http_a.Storage.Postgres.{
  LinkRow, Database, Chrono, link_of_row, list, position_of, page_of, next_cursor,
}

module _ (code_lt : String → String → Bool) where
  -- `created_at < $1 OR (created_at = $1 AND code < $2)`
  abbrev pub is_behind : SystemTime × String → LinkRow → Bool
  is_behind (t, c) row =
      not (leb_ℤ t row.created_at) || (eq_ℤ row.created_at t && code_lt row.code c)

  abbrev pub is_after : Option (SystemTime × String) → LinkRow → Bool
  is_after none row = true
  is_after (some at) row = is_behind at row

abbrev pub key : LinkRow → SystemTime × String
key row = (row.created_at, row.code)

-- What the statements of the listing mean where they succeed: `ordered` is the table in their order,
-- by falling time and, at one time, by falling code in the collation `code_lt`. The times of the
-- table are such that RFC 3339 reads what it prints.
pub record IsPageSql {B : Type 0} (db : Database B) (chrono : Chrono)
    (code_lt : String → String → Bool) (ordered : B → List LinkRow) : Type 0 where
  pub pages :
      (after : Option (SystemTime × String)) (n : ℕ) (b : B)
      → db.select_page after (pos n) b
        ≡ (ok (take n (filter (is_after code_lt after) (ordered b))), b)
  pub falls : (b : B) → Pairwise (λ x y. is_behind code_lt (key x) y ≡ true) (ordered b)
  pub reads_back :
      (b : B)
      → All
          (λ row. chrono.parse_rfc3339 (chrono.to_rfc3339 row.created_at) ≡ some row.created_at)
          (ordered b)
  pub asym : (a c : String) → code_lt a c ≡ true → code_lt c a ≡ false

abbrev pub Cursor : Type 0
Cursor = Option (String × String)

-- What a client reads that follows the cursors until a page has none; `none` if it stops before or
-- if a page fails.
join : List ShortLink → Option (List ShortLink) → Option (List ShortLink)
join page none = none
join page (some rest) = some (page ++ rest)

module _ {B : Type 0} (db : Database B) (chrono : Chrono) (now : SystemTime) (limit : ℕ) where
  unfoldable pub collect : ℕ → Cursor → B → Option (List ShortLink)
  unfolding join list
  collect zero cursor b = none
  collect (suc requests) cursor b = elim (list db chrono now limit cursor b).0 [
    | ok (links, none) ↦ some links
    | ok (links, some c) ↦ join links (collect requests (some c) b)
    | err e ↦ none
    | panic ↦ none
  ]

  collect_step :
      (requests : ℕ) (cursor : Cursor) (b : B) (links : List ShortLink) (c : Cursor)
      → list db chrono now limit cursor b ≡ (ok (links, c), b)
      → collect (suc requests) cursor b
        ≡ elim c [ none ↦ some links | some d ↦ join links (collect requests (some d) b) ]
  collect_step requests cursor b links none e = unfold collect in rw (e, collect)
  collect_step requests cursor b links (some d) e = unfold collect in rw (e, collect)

last-map :
    (rows : List LinkRow) (x : LinkRow)
    → last rows ≡ some x
    → last (map link_of_row rows) ≡ some (link_of_row x)
last-map [] x e = cc
last-map (y ∷ []) x e = let y_x : y ≡ x = cc in ap (λ (r : LinkRow). some (link_of_row r)) y_x
last-map (y ∷ z ∷ rows) x e = last-map (z ∷ rows) x e

module _ (code_lt : String → String → Bool)
    (asym : (a c : String) → code_lt a c ≡ true → code_lt c a ≡ false) where
  behind_asym :
      (x y : LinkRow) → is_behind code_lt (key x) y ≡ true → is_behind code_lt (key y) x ≡ false
  behind_asym x y h = ground (arith, asym y.code x.code, asym x.code y.code)

  behind_self : (x : LinkRow) → is_behind code_lt (key x) x ≡ false
  behind_self x = ground (arith, asym x.code x.code)

  -- The rows behind a row of the ordered table.
  filter-behind :
      (pre post : List LinkRow) (x : LinkRow)
      → Pairwise (λ y z. is_behind code_lt (key y) z ≡ true) (pre ++ x ∷ post)
      → filter (is_behind code_lt (key x)) (pre ++ x ∷ post) ≡ post
  unfolding filter
  filter-behind [] post x (h, p) =
      rw (behind_self x) (filter-All (is_behind code_lt (key x)) post h)
  filter-behind (y ∷ pre) post x (h, p) =
      rw (behind_asym y x (All-middle (λ z. is_behind code_lt (key y) z ≡ true) pre post x h))
        (filter-behind pre post x p)

as_i64_small : (n : ℕ) → n < 2 ^ 63 → as_i64 n ≡ pos n
unfolding as_i64
as_i64_small n h = ground arith

module _ {B : Type 0} (db : Database B) (chrono : Chrono) (code_lt : String → String → Bool)
    (ordered : B → List LinkRow) (sql : IsPageSql db chrono code_lt ordered) (now : SystemTime)
    (k : ℕ) (fits : suc k < 2 ^ 63) where
  -- The cursor `c` stands for the place in front of `rest`.
  abbrev Leads : Cursor → B → List LinkRow → Type 0
  Leads c b rest = filter (is_after code_lt (position_of chrono now c)) (ordered b) ≡ rest

  list_behind :
      (cursor : Cursor) (b : B) (rest : List LinkRow)
      → Leads cursor b rest
      → list db chrono now (suc k) cursor b ≡ (ok (page_of chrono (take (suc k) rest)), b)
  unfolding list
  list_behind cursor b rest leads =
      rw (as_i64_small (suc k) fits, sql.pages (position_of chrono now cursor) (suc k) b, leads)
        refl

  -- The page in front of `y ∷ ys` ends in a row whose cursor leads on behind the page.
  page_end :
      (b : B) (pre ys : List LinkRow) (y : LinkRow)
      → ordered b ≡ pre ++ y ∷ ys
      → (c : String × String) × (next_cursor chrono (map link_of_row (y ∷ take k ys)) ≡ some c)
        × Leads (some c) b (drop k ys)
  unfolding next_cursor position_of link_of_row
  page_end b pre ys y e =
      let (init, x, split, l) = last-split y (take k ys) in
      let here : ordered b ≡ (pre ++ init) ++ x ∷ drop k ys =
        e
        ∙ ap (λ (t : List LinkRow). pre ++ y ∷ t) (sym (take-append-drop k ys))
        ∙ ap (λ (t : List LinkRow). pre ++ (t ++ drop k ys)) split
        ∙ ap (λ (t : List LinkRow). pre ++ t) (append_assoc init (x ∷ []) (drop k ys))
        ∙ sym (append_assoc pre init (x ∷ drop k ys)) in
      let read =
        All-middle
          (λ row. chrono.parse_rfc3339 (chrono.to_rfc3339 row.created_at) ≡ some row.created_at)
          (pre ++ init) (drop k ys) x (subst (All _) here (sql.reads_back b)) in
      (
        (chrono.to_rfc3339 x.created_at, x.code),
        rw (next_cursor, last-map (y ∷ take k ys) x l) refl,
        rw (position_of, read, here)
            (filter-behind code_lt sql.asym (pre ++ init) (drop k ys) x
              (subst (Pairwise _) here (sql.falls b))),
      )

  collect_rest :
      (requests : ℕ) (cursor : Cursor) (b : B) (pre rest : List LinkRow)
      → ordered b ≡ pre ++ rest
      → Leads cursor b rest
      → length rest < requests
      → collect db chrono now (suc k) requests cursor b ≡ some (map link_of_row rest)
  collect_rest zero cursor b pre rest e leads enough = absurd (omega arith)
  collect_rest (suc n) cursor b pre [] e leads enough =
      collect_step db chrono now (suc k) n cursor b [] none
        (list_behind cursor b [] leads ∙ unfold page_of next_cursor in refl)
  collect_rest (suc n) cursor b pre (y ∷ ys) e leads enough =
      let page = map link_of_row (y ∷ take k ys) in
      let (c, next, on) = page_end b pre ys y e in
      let here : ordered b ≡ (pre ++ y ∷ take k ys) ++ drop k ys =
        e
        ∙ ap (λ (t : List LinkRow). pre ++ y ∷ t) (sym (take-append-drop k ys))
        ∙ sym (append_assoc pre (y ∷ take k ys) (drop k ys)) in
      collect_step db chrono now (suc k) n cursor b page (some c) (
        list_behind cursor b (y ∷ ys) leads
        ∙ unfold page_of in ap (λ (o : Cursor). (ok (page, o), b)) next)
      ∙ ap (join page) (
          collect_rest n (some c) b (pre ++ y ∷ take k ys) (drop k ys) here on
            (omega (arith, length-drop k ys)))
      ∙ unfold join in
        ap some (
          sym (map-append link_of_row (y ∷ take k ys) (drop k ys))
          ∙ ap (λ (t : List LinkRow). map link_of_row (y ∷ t)) (take-append-drop k ys))

everywhere : (rows : List LinkRow) → All (λ row. true ≡ true) rows
everywhere [] = tt
everywhere (row ∷ rows) = (refl, everywhere rows)

-- Where the statements of the listing mean what SQL says, the pages from the first one by their
-- cursors end, and are together the links of the table in the order of the listing: none is left
-- out, and none comes twice. One request more than there are rows is enough, for a limit of 1 at
-- least that an i64 holds.
pub collect-ordered :
    {B : Type 0} (db : Database B) (chrono : Chrono) (code_lt : String → String → Bool)
    (ordered : B → List LinkRow) (now : SystemTime) (requests limit : ℕ) (b : B)
    → IsPageSql db chrono code_lt ordered
    → 0 < limit
    → limit < 2 ^ 63
    → length (ordered b) < requests
    → collect db chrono now limit requests none b ≡ some (map link_of_row (ordered b))
collect-ordered db chrono code_lt ordered now requests zero b sql h fits enough =
    absurd (omega arith)
collect-ordered db chrono code_lt ordered now requests (suc k) b sql h fits enough =
    collect_rest db chrono code_lt ordered sql now k fits requests none b [] (ordered b) refl
      (unfold position_of in filter-All (λ row. true) (ordered b) (everywhere (ordered b))) enough
