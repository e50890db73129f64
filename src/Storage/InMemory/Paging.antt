-- ===== src/Storage/InMemory/Paging.antt =====
-- The pages of a listing, by following the cursors, are the sorted links, each once.
use otus_rusthomework_http_a.Common.{
  ℕ, zero, suc, ◌+◌, ◌-◌, ◌%◌, ◌^◌, ◌≤◌, ◌<◌, ◌≡◌, refl, sym, ap, ◌∙◌, true, false, Option, none,
  some, List, [], ◌∷◌, ◌++◌, arith, length, take, drop, last, position, min, eq_refl, eq_iff,
  length-append, take-append-drop, drop-append, length-drop, subst, All-middle, take-min,
  last-split,
}
use mathlib.Core.List.{append_assoc}
use otus_rusthomework_http_a.Common.Outcome.{ok, err, panic}
use otus_rusthomework_http_a.Common.Sorting.{Pairwise}
use otus_rusthomework_http_a.Domain.Link.{ShortLink, RepoError}
use otus_rusthomework_http_a.Storage.InMemory.{
  InMemoryRepo, Cursor, Page, cursor_of, is_at_cursor, start_of, slice, page_of, sorted_links,
  list_sync, list_entries,
}
use otus_rusthomework_http_a.Storage.InMemory.Map.{OtherCode, IsWellFormed, sorted_links-Pairwise}

is_at_cursor_self : (link : ShortLink) → is_at_cursor (cursor_of link) link ≡ true
unfolding is_at_cursor cursor_of
is_at_cursor_self link = simp eq_refl

is_at_cursor_other : (a b : ShortLink) → OtherCode b a → is_at_cursor (cursor_of a) b ≡ false
unfolding is_at_cursor cursor_of
is_at_cursor_other a b h = ground (arith, eq_iff b.code a.code)

position-cursor :
    (pre post : List ShortLink) (x : ShortLink)
    → Pairwise OtherCode (pre ++ x ∷ post)
    → position (is_at_cursor (cursor_of x)) (pre ++ x ∷ post) ≡ some (length pre)
unfolding position
position-cursor [] post x p = rw (is_at_cursor_self x)
position-cursor (y ∷ pre) post x (h, p) =
    rw
      (is_at_cursor_other x y (All-middle (OtherCode y) pre post x h), position-cursor pre post x p)

-- The cursor of a link of the listing stands for the place behind it.
pub start_of-cursor :
    (pre post : List ShortLink) (x : ShortLink)
    → Pairwise OtherCode (pre ++ x ∷ post)
    → start_of (some (cursor_of x)) (pre ++ x ∷ post) ≡ length (pre ++ x ∷ [])
unfolding start_of
start_of-cursor pre post x p =
    rw (position-cursor pre post x p, start_of) (omega (arith, length-append pre (x ∷ [])))

-- The page of a limit at the front of the links that are left.
abbrev pub page : ℕ → List ShortLink → Page
page limit rest =
    (take limit rest, elim (last (take limit rest)) [ none ↦ none | some x ↦ some (cursor_of x) ])

slice-take :
    (xs : List ShortLink) (start end : ℕ)
    → start ≤ end
    → end ≤ length xs
    → slice {E = RepoError} xs start end ≡ ok (take (end - start) (drop start xs))
unfolding slice
slice-take xs start end h k = ground arith

-- The page that starts behind the links `pre` is the front of the rest.
slice_behind :
    (limit : ℕ) (pre rest : List ShortLink)
    → length (pre ++ rest) + limit < 2 ^ 64
    → slice {E = RepoError}
        (pre ++ rest)
        (length pre)
        (min ((length pre + limit) % 2 ^ 64) (length (pre ++ rest)))
      ≡ ok (take limit rest)
slice_behind limit pre rest fits =
    let n = min ((length pre + limit) % 2 ^ 64) (length (pre ++ rest)) in
    let e : n - length pre ≡ min limit (length rest) = omega (arith, length-append pre rest) in
    slice-take (pre ++ rest) (length pre) n (omega (arith, length-append pre rest)) (omega arith)
    ∙ ap (λ (k : ℕ). ok (take k (drop (length pre) (pre ++ rest)))) e
    ∙ ap (λ (l : List ShortLink). ok (take (min limit (length rest)) l)) (drop-append pre rest)
    ∙ ap ok (take-min limit rest)

list_entries_behind :
    (limit : ℕ) (cursor : Cursor) (pre rest : List ShortLink)
    → start_of cursor (pre ++ rest) ≡ length pre
    → length (pre ++ rest) + limit < 2 ^ 64
    → list_entries limit cursor (pre ++ rest) ≡ ok (page limit rest)
list_entries_behind limit cursor pre rest s fits =
    unfold list_entries in
    ap
      (λ (start : ℕ).
        page_of (slice (pre ++ rest) start (min ((start + limit) % 2 ^ 64) (length (pre ++ rest)))))
      s
    ∙ ap page_of (slice_behind limit pre rest fits)
    ∙ unfold page_of in refl

list_sync_lem :
    (limit : ℕ) (cursor : Cursor) (repo : InMemoryRepo)
    → list_sync limit cursor repo ≡ list_entries limit cursor (sorted_links repo)
unfolding list_sync
list_sync_lem limit cursor repo = refl

-- The first page of a listing is the front of the sorted links.
pub list_sync_first :
    (limit : ℕ) (repo : InMemoryRepo)
    → length (sorted_links repo) + limit < 2 ^ 64
    → list_sync limit none repo ≡ ok (page limit (sorted_links repo))
list_sync_first limit repo fits =
    list_sync_lem limit none repo
    ∙ list_entries_behind limit none [] (sorted_links repo) (unfold start_of in refl) fits

-- With the cursor of any link of the listing, the page is the front of the links behind it.
pub list_sync_next :
    (limit : ℕ) (repo : InMemoryRepo) (pre post : List ShortLink) (x : ShortLink)
    → IsWellFormed repo
    → sorted_links repo ≡ pre ++ x ∷ post
    → length (sorted_links repo) + limit < 2 ^ 64
    → list_sync limit (some (cursor_of x)) repo ≡ ok (page limit post)
list_sync_next limit repo pre post x w e fits =
    list_sync_lem limit (some (cursor_of x)) repo
    ∙ ap (list_entries limit (some (cursor_of x))) (e ∙ sym (append_assoc pre (x ∷ []) post))
    ∙ list_entries_behind limit (some (cursor_of x)) (pre ++ x ∷ []) post
        (ap (start_of (some (cursor_of x))) (append_assoc pre (x ∷ []) post)
          ∙ start_of-cursor pre post x
              (subst (Pairwise OtherCode) e (sorted_links-Pairwise repo w)))
        (rw append_assoc (rw (← e) fits))

-- What a client reads that follows the cursors until a page has none; `none` if it stops before or
-- if a page fails.
join : List ShortLink → Option (List ShortLink) → Option (List ShortLink)
join page none = none
join page (some rest) = some (page ++ rest)

unfoldable pub collect : ℕ → ℕ → Cursor → InMemoryRepo → Option (List ShortLink)
unfolding join list_sync
collect zero limit cursor repo = none
collect (suc requests) limit cursor repo = elim (list_sync limit cursor repo) [
  | ok (links, none) ↦ some links
  | ok (links, some c) ↦ join links (collect requests limit (some c) repo)
  | err e ↦ none
  | panic ↦ none
]

collect_step :
    (requests limit : ℕ) (cursor : Cursor) (repo : InMemoryRepo) (links : List ShortLink)
    (c : Cursor)
    → list_sync limit cursor repo ≡ ok (links, c)
    → collect (suc requests) limit cursor repo
      ≡ elim c [ none ↦ some links | some d ↦ join links (collect requests limit (some d) repo) ]
collect_step requests limit cursor repo links none e = unfold collect in rw (e, collect)
collect_step requests limit cursor repo links (some d) e = unfold collect in rw (e, collect)

module _ (k : ℕ) (repo : InMemoryRepo) (w : IsWellFormed repo) where
  module _ (fits : length (sorted_links repo) + suc k < 2 ^ 64) where
    list_sync_behind :
        (cursor : Cursor) (pre rest : List ShortLink)
        → sorted_links repo ≡ pre ++ rest
        → start_of cursor (pre ++ rest) ≡ length pre
        → list_sync (suc k) cursor repo ≡ ok (page (suc k) rest)
    list_sync_behind cursor pre rest e s =
        list_sync_lem (suc k) cursor repo
        ∙ ap (list_entries (suc k) cursor) e
        ∙ list_entries_behind (suc k) cursor pre rest s (rw (← e) fits)

    -- The page in front of `y ∷ ys` ends in a link whose cursor leads on behind the page.
    page_end :
        (pre ys : List ShortLink) (y : ShortLink)
        → sorted_links repo ≡ pre ++ y ∷ ys
        → (x : ShortLink) × (last (y ∷ take k ys) ≡ some x)
          × (sorted_links repo ≡ (pre ++ y ∷ take k ys) ++ drop k ys)
          × (start_of (some (cursor_of x)) ((pre ++ y ∷ take k ys) ++ drop k ys)
              ≡ length (pre ++ y ∷ take k ys))
    page_end pre ys y e =
        let (init, x, split, l) = last-split y (take k ys) in
        let here : sorted_links repo ≡ (pre ++ y ∷ take k ys) ++ drop k ys =
          e
          ∙ ap (λ (t : List ShortLink). pre ++ y ∷ t) (sym (take-append-drop k ys))
          ∙ sym (append_assoc pre (y ∷ take k ys) (drop k ys)) in
        let ends : pre ++ y ∷ take k ys ≡ (pre ++ init) ++ x ∷ [] =
          ap (λ (t : List ShortLink). pre ++ t) split ∙ sym (append_assoc pre init (x ∷ [])) in
        let joined : (pre ++ y ∷ take k ys) ++ drop k ys ≡ (pre ++ init) ++ x ∷ drop k ys =
          ap (λ (t : List ShortLink). t ++ drop k ys) ends
          ∙ append_assoc (pre ++ init) (x ∷ []) (drop k ys) in
        (
          x,
          l,
          here,
          ap (start_of (some (cursor_of x))) joined
              ∙ start_of-cursor (pre ++ init) (drop k ys) x
                  (subst (Pairwise OtherCode) (here ∙ joined) (sorted_links-Pairwise repo w))
              ∙ ap (λ (t : List ShortLink). length t) (sym ends),
        )

    collect_rest :
        (requests : ℕ) (cursor : Cursor) (pre rest : List ShortLink)
        → sorted_links repo ≡ pre ++ rest
        → start_of cursor (pre ++ rest) ≡ length pre
        → length rest < requests
        → collect requests (suc k) cursor repo ≡ some rest
    collect_rest zero cursor pre rest e s enough = absurd (omega arith)
    collect_rest (suc n) cursor pre [] e s enough =
        collect_step n (suc k) cursor repo [] none (list_sync_behind cursor pre [] e s)
    collect_rest (suc n) cursor pre (y ∷ ys) e s enough =
        let (x, l, here, start) = page_end pre ys y e in
        collect_step n (suc k) cursor repo (y ∷ take k ys) (some (cursor_of x))
          (list_sync_behind cursor pre (y ∷ ys) e s ∙ rw l)
        ∙ ap (join (y ∷ take k ys)) (
            collect_rest n (some (cursor_of x)) (pre ++ y ∷ take k ys) (drop k ys) here start
              (omega (arith, length-drop k ys)))
        ∙ unfold join in ap (λ (t : List ShortLink). some (y ∷ t)) (take-append-drop k ys)

-- The pages of a well-formed repository, by cursors from the first one, are together the sorted
-- links: none is left out, and none comes twice. One request more than there are links is enough.
pub collect-sorted_links :
    (requests limit : ℕ) (repo : InMemoryRepo)
    → IsWellFormed repo
    → 0 < limit
    → length (sorted_links repo) + limit < 2 ^ 64
    → length (sorted_links repo) < requests
    → collect requests limit none repo ≡ some (sorted_links repo)
collect-sorted_links requests zero repo w h fits enough = absurd (omega arith)
collect-sorted_links requests (suc k) repo w h fits enough =
    collect_rest k repo w fits requests none [] (sorted_links repo) refl (unfold start_of in refl)
      enough
