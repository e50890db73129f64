-- ===== src/Server/Grpc/Restart.antt =====
-- The page token of the gRPC listing over a repository whose times hold colons.
use otus_rusthomework_http_a.Common.{
  ℤ, ◌<◌, String, str_append, ◌≡◌, refl, Option, none, some, List, [], ◌∷◌, length, arith,
}
use otus_rusthomework_http_a.Common.Outcome.{Outcome}
use otus_rusthomework_http_a.Common.Text.{split_pos, length-split}
use otus_rusthomework_http_a.Domain.Link.{LinkRepository}
use otus_rusthomework_http_a.Server.Grpc.{
  Status, GrpcListRequest, cursor_of_token, cursor_of_parts, token_of_cursor, list_links,
}

three_parts : (parts : List String) → 2 < length parts → cursor_of_parts parts ≡ none
unfolding cursor_of_parts
three_parts [] h = refl
three_parts (a ∷ []) h = refl
three_parts (a ∷ b ∷ []) h = absurd (omega arith)
three_parts (a ∷ b ∷ c ∷ parts) h = refl

-- The token of a time with a colon is read as no cursor.
token_lost :
    (hour rest code : String)
    → cursor_of_token (token_of_cursor (some (str_append hour (str_append ":" rest), code))) ≡ none
unfolding cursor_of_token token_of_cursor
token_lost hour rest code = three_parts _ (
    omega (
      arith,
      length-split (str_append hour (str_append ":" rest)) code,
      length-split hour rest,
      split_pos b':' hour,
      split_pos b':' rest,
      split_pos b':' code,
    ))

-- A request of the gRPC listing with the page token of a cursor whose time holds a colon, as RFC
-- 3339 times do, is answered as the request without a token: the first page again.
pub list_links_restarts :
    {R : Type 0} (repo : LinkRepository R) (auth : ℤ → Option String → Outcome Status Unit)
    (now : ℤ) (header : Option String) (req : GrpcListRequest) (hour rest code : String) (r : R)
    → let cursor : Option (String × String) = some (str_append hour (str_append ":" rest), code) in
      list_links repo auth now header (record req { page_token = token_of_cursor cursor }) r
      ≡ list_links repo auth now header (record req { page_token = none }) r
unfolding list_links
list_links_restarts repo auth now header req hour rest code r =
    rw (token_lost hour rest code) (unfold cursor_of_token in refl)
