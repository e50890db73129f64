-- ===== src/Server/Grpc/Paging.antt =====
-- The page token of the gRPC listing over the repository in memory.
use text.Mathlib.TextLemmas.{nil-append, cons-append}
use otus_rusthomework_http_a.Common.{
  ℕ, zero, suc, ◌/◌, ◌%◌, ◌==◌, ◌+◌, ◌^◌, min, length, last, All, subst, String, str_append, ◌≡◌,
  refl, ap, ◌∙◌, Bool, true, false, none, some, List, [], ◌∷◌, arith, if◌then◌else◌, ltb,
}
use otus_rusthomework_http_a.Common.Outcome.{Outcome, ok, err, panic}
use otus_rusthomework_http_a.Common.Text.{
  split, IsFreeOf, to_string, split_of_IsFreeOf, print_from, digit,
}
use otus_rusthomework_http_a.Common.Time.{as_unix_secs}
use otus_rusthomework_http_a.Domain.Link.{ShortLink, RepoError}
use otus_rusthomework_http_a.Storage.InMemory.{
  InMemoryRepo, cursor_of, list_sync, list_entries, start_of, sorted_links, page_of, slice, Page,
  Cursor,
}
use otus_rusthomework_http_a.Server.Dto.Checks.{IsCodeText, code_text-IsFreeOf}
use otus_rusthomework_http_a.Server.Grpc.{cursor_of_token, cursor_of_parts, token_of_cursor}

split-append :
    (s t : String)
    → IsFreeOf b':' s
    → split b':' (str_append s (str_append ":" t)) ≡ s ∷ split b':' t
unfolding split
split-append String.[] t h = rw nil-append (rw cons-append (rw nil-append refl))
split-append (String.◌∷◌ c s) t (n, h) = rw cons-append (rw (split-append s t h) (ground arith))

-- A cursor whose two parts hold no colon comes back from its page token.
pub cursor_of_token-token_of_cursor :
    (ts code : String)
    → IsFreeOf b':' ts
    → IsFreeOf b':' code
    → cursor_of_token (token_of_cursor (some (ts, code))) ≡ some (ts, code)
unfolding cursor_of_token token_of_cursor cursor_of_parts
cursor_of_token-token_of_cursor ts code a b =
    ap cursor_of_parts (split-append ts code a ∙ ap (λ l. ts ∷ l) (split_of_IsFreeOf b':' code b))

either :
    (b : Bool) (s t : String)
    → IsFreeOf b':' s
    → IsFreeOf b':' t
    → IsFreeOf b':' (if b then s else t)
either true s t a c = a
either false s t a c = c

IsFreeOf-append :
    (s t : String) → IsFreeOf b':' s → IsFreeOf b':' t → IsFreeOf b':' (str_append s t)
IsFreeOf-append String.[] t a b = rw nil-append b
IsFreeOf-append (String.◌∷◌ c s) t (n, a) b = rw cons-append (n, IsFreeOf-append s t a b)

digit-IsFreeOf : (d : ℕ) → IsFreeOf b':' (digit d)
unfolding digit
digit-IsFreeOf d =
    either (d == 0) "0" _ ((λ e. omega arith), tt)
      (either (d == 1) "1" _ ((λ e. omega arith), tt)
        (either (d == 2) "2" _ ((λ e. omega arith), tt)
          (either (d == 3) "3" _ ((λ e. omega arith), tt)
            (either (d == 4) "4" _ ((λ e. omega arith), tt)
              (either (d == 5) "5" _ ((λ e. omega arith), tt)
                (either (d == 6) "6" _ ((λ e. omega arith), tt)
                  (either (d == 7) "7" _ ((λ e. omega arith), tt)
                    (either (d == 8) "8" _ ((λ e. omega arith), tt)
                      (((λ e. omega arith), tt))))))))))

print_from-IsFreeOf :
    (fuel n : ℕ) (acc : String) → IsFreeOf b':' acc → IsFreeOf b':' (print_from fuel n acc)
unfolding print_from
print_from-IsFreeOf zero n acc h = h
print_from-IsFreeOf (suc fuel) n acc h =
    let rest =
      print_from-IsFreeOf fuel (n / 10) (str_append (digit (n % 10)) acc)
        (IsFreeOf-append (digit (n % 10)) acc (digit-IsFreeOf (n % 10)) h) in
    either (ltb n 10) _ _ (IsFreeOf-append (digit n) acc (digit-IsFreeOf n) h) rest

pub to_string-IsFreeOf : (n : ℕ) → IsFreeOf b':' (to_string n)
unfolding to_string
to_string-IsFreeOf n = print_from-IsFreeOf (suc n) n "" tt

cursor_of-token :
    (link : ShortLink)
    → IsCodeText link.code
    → cursor_of_token (token_of_cursor (some (cursor_of link))) ≡ some (cursor_of link)
unfolding cursor_of
cursor_of-token link text =
    cursor_of_token-token_of_cursor (to_string (as_unix_secs link.created_at)) link.code
      (to_string-IsFreeOf (as_unix_secs link.created_at)) (code_text-IsFreeOf link.code text)

abbrev pub HasCodeText : ShortLink → Type 0
HasCodeText link = IsCodeText link.code

on_page :
    (links : List ShortLink)
    → All HasCodeText links
    → cursor_of_token
        (token_of_cursor (elim (last links) [ none ↦ none | some link ↦ some (cursor_of link) ]))
      ≡ elim (last links) [ none ↦ none | some link ↦ some (cursor_of link) ]
unfolding cursor_of_token token_of_cursor
on_page [] all = refl
on_page (l ∷ []) (text, all) = cursor_of-token l text
on_page (l ∷ m ∷ ls) (text, all) = on_page (m ∷ ls) all

page_of-cursor :
    (o : Outcome RepoError (List ShortLink)) (p : Page)
    → page_of o ≡ ok p
    → All HasCodeText p.0
    → cursor_of_token (token_of_cursor p.1) ≡ p.1
unfolding page_of
page_of-cursor (ok links) p h all =
    subst (λ (q : Page). All HasCodeText q.0 → cursor_of_token (token_of_cursor q.1) ≡ q.1)
      (let e : (links, elim (last links) [ none ↦ none | some link ↦ some (cursor_of link) ]) ≡ p =
          cc in
        e)
      (on_page links) all
page_of-cursor (err e) p h all = cc
page_of-cursor panic p h all = cc

-- The page token of the gRPC listing leads to the cursor that the repository in memory gave, where
-- the codes on the page pass the check of custom codes.
pub cursor_of_token-list_sync :
    (limit : ℕ) (cursor : Cursor) (repo : InMemoryRepo) (p : Page)
    → list_sync limit cursor repo ≡ ok p
    → All HasCodeText p.0
    → cursor_of_token (token_of_cursor p.1) ≡ p.1
unfolding list_sync list_entries
cursor_of_token-list_sync limit cursor repo p h all =
    let entries = sorted_links repo in
    let start = start_of cursor entries in
    page_of-cursor (slice entries start (min ((start + limit) % 2 ^ 64) (length entries))) p h all
