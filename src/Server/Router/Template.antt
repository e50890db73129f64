-- ===== src/Server/Router/Template.antt =====
-- shorty-server/src/lib.rs: the label of a path in the metrics.
use Prim.Native.Char.{code}
use otus_rusthomework_http_a.Common.{
  ℕ, ◌+◌, ◌≤◌, String, ◌≡◌, refl, sym, ap, ◌∙◌, Bool, true, false, not, ◌&&◌, ◌||◌, Option, none,
  some, str_eq, eq_iff, ◌==◌, ltb, arith, if◌then◌else◌, length, Bool-cases, inl, inr,
}
use otus_rusthomework_http_a.Common.Text.{strip_prefix, bytes}
use otus_rusthomework_http_a.Server.Dto.{is_code_byte}

unfoldable pub starts_with : String → String → Bool
unfolding strip_prefix
starts_with s p = elim (strip_prefix s p) as (λ x. Bool) [ none ↦ false | some rest ↦ true ]

unfoldable pub ends_with : String → String → Bool
ends_with String.[] t = str_eq "" t
ends_with (String.◌∷◌ c s) t = let later = ends_with s t in str_eq (String.◌∷◌ c s) t || later

-- `path.matches('/').count()`
unfoldable pub slashes : String → ℕ
slashes String.[] = 0
slashes (String.◌∷◌ c s) = (if code c == b'/' then 1 else 0) + slashes s

unfoldable pub all_code_chars : String → Bool
unfolding is_code_byte
all_code_chars String.[] = true
all_code_chars (String.◌∷◌ c s) = is_code_byte (code c) && all_code_chars s

-- The tests behind those of the links.
unfoldable pub other_template : String → String
unfolding starts_with ends_with all_code_chars
other_template path =
    if str_eq path "/healthz"
    then "/healthz"
    else if str_eq path "/version"
    then "/version"
    else if str_eq path "/slow"
    then "/slow"
    else if str_eq path "/slow-blocking"
    then "/slow-blocking"
    else if str_eq path "/stats/top"
    then "/stats/top"
    else if str_eq path "/metrics"
    then "/metrics"
    else if starts_with path "/api/v1/links/" && ends_with path "/stats"
    then "/api/v1/links/{code}/stats"
    else if ltb 1 (length (bytes path)) && not (starts_with path "/")
    then "/{code}"
    else if ltb 1 (length (bytes path)) && all_code_chars path
    then "/{code}"
    else path

unfoldable pub route_template : String → String
unfolding starts_with slashes other_template
route_template path =
    if starts_with path "/api/v1/links/" && ltb 14 (length (bytes path))
    then (if slashes path == 3
        then "/api/v1/links/{code}"
        else if str_eq path "/api/v1/links" || str_eq path "/api/v1/links/"
        then "/api/v1/links"
        else other_template path)
    else other_template path

slashes_of_prefix :
    (s p rest : String) → strip_prefix s p ≡ some rest → slashes s ≡ slashes p + slashes rest
unfolding strip_prefix slashes
slashes_of_prefix s String.[] rest h = let e : s ≡ rest = cc in rw e (omega arith)
slashes_of_prefix String.[] (String.◌∷◌ d p) rest h = cc
slashes_of_prefix (String.◌∷◌ c s) (String.◌∷◌ d p) rest h =
    ground (arith, slashes_of_prefix s p rest)

-- A path under the links has four slashes at least.
four_slashes : (path : String) → starts_with path "/api/v1/links/" ≡ true → 4 ≤ slashes path
unfolding starts_with slashes
four_slashes path h = at (strip_prefix path "/api/v1/links/") refl h
  where
    at :
        (o : Option String)
        → strip_prefix path "/api/v1/links/" ≡ o
        → elim o as (λ x. Bool) [ none ↦ false | some rest ↦ true ] ≡ true
        → 4 ≤ slashes path
    at none e t = cc
    at (some rest) e t = omega (arith, slashes_of_prefix path "/api/v1/links/" rest e)

-- A text that is `fixed` does not pass a test that `fixed` fails.
not_fixed :
    (test : String → Bool) (path fixed : String)
    → test fixed ≡ false
    → test path ≡ true
    → str_eq path fixed ≡ false
not_fixed test path fixed fails passes = elim (Bool-cases (str_eq path fixed)) [
  | inl same ↦
      let e : path ≡ fixed = (eq_iff path fixed).0 same in
      let clash : true ≡ false = sym passes ∙ ap test e ∙ fails in cc
  | inr differs ↦ differs
]

-- The label that a path from the root gets.
abbrev pub label : String → String
unfolding starts_with ends_with
label path =
    if starts_with path "/api/v1/links/" && ends_with path "/stats"
    then "/api/v1/links/{code}/stats"
    else path

rooted_not_code : (path : String) → starts_with path "/" ≡ true → all_code_chars path ≡ false
unfolding starts_with strip_prefix all_code_chars is_code_byte
rooted_not_code String.[] h = cc
rooted_not_code (String.◌∷◌ c s) h = ground arith

label_fixed :
    (path fixed rest : String)
    → starts_with fixed "/api/v1/links/" ≡ false
    → rest ≡ label path
    → (if str_eq path fixed then fixed else rest) ≡ label path
unfolding label
label_fixed path fixed rest out h = elim (Bool-cases (str_eq path fixed)) [
  | inl same ↦ let e : path ≡ fixed = (eq_iff path fixed).0 same in rw (same, e, out) refl
  | inr differs ↦ rw differs h
]

label_last :
    (path : String) (b : Bool)
    → starts_with path "/" ≡ true
    → (if b
        then "/api/v1/links/{code}/stats"
        else if ltb 1 (length (bytes path)) && not (starts_with path "/")
        then "/{code}"
        else if ltb 1 (length (bytes path)) && all_code_chars path
        then "/{code}"
        else path)
      ≡ (if b then "/api/v1/links/{code}/stats" else path)
label_last path true rooted = refl
label_last path false rooted = let not_code = rooted_not_code path rooted in ground arith

other_template-label :
    (path : String) → starts_with path "/" ≡ true → other_template path ≡ label path
unfolding other_template starts_with strip_prefix
other_template-label path rooted = label_fixed path "/healthz" _ refl (
    label_fixed path "/version" _ refl (
      label_fixed path "/slow" _ refl (
        label_fixed path "/slow-blocking" _ refl (
          label_fixed path "/stats/top" _ refl (
            label_fixed path "/metrics" _ refl (
              label_last path (starts_with path "/api/v1/links/" && ends_with path "/stats")
                rooted))))))

-- Every path from the root is its own label, unless it is under `/api/v1/links/` and ends in
-- `/stats`: the tests for `/api/v1/links/{code}` and for `/{code}` never hold.
pub route_template-label :
    (path : String) → starts_with path "/" ≡ true → route_template path ≡ label path
unfolding route_template starts_with strip_prefix bytes
route_template-label path rooted =
    let links = starts_with path "/api/v1/links/" in
    let is_long = ltb 14 (length (bytes path)) in
    elim (Bool-cases (links && is_long)) [
      | inl both ↦
          let under : links ≡ true = ground arith in
          let long : is_long ≡ true = ground arith in
          let many : slashes path == 3 ≡ false = ground (arith, four_slashes path) in
          let no_list =
            not_fixed (λ s. starts_with s "/api/v1/links/") path "/api/v1/links" refl under in
          let no_dir = not_fixed (λ s. ltb 14 (length (bytes s))) path "/api/v1/links/" refl long in
          rw (both, many, no_list, no_dir) (other_template-label path rooted)
      | inr neither ↦ rw neither (other_template-label path rooted)
    ]
