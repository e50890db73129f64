-- ===== src/Server/Dto/Checks.antt =====
-- What the validated input guarantees to the code behind it.
use otus_rusthomework_http_a.Common.{
  ℕ, ◌≤◌, String, ◌≡◌, refl, ◌↔◌, true, ◌&&◌, Option, none, some, List, [], ◌∷◌, ◌++◌, arith, leb_ℤ,
  length,
}
use Prim.Native.Char.{code as code_point}
use otus_rusthomework_http_a.Common.Outcome.{ok}
use otus_rusthomework_http_a.Common.Text.{bytes, char_bytes, IsFreeOf, chars}
use otus_rusthomework_http_a.Common.Time.{SystemTime, add_secs}
use otus_rusthomework_http_a.Domain.Link.{is_expired, with_expires_at}
use otus_rusthomework_http_a.Server.Dto.{
  validate_custom_code, all_code_bytes, is_code_byte, expires_at_from_ttl, expires_at_from_secs,
}
use otus_rusthomework_http_a.Server.Handlers.{new_link}

-- A character of a code: an ASCII letter or digit, `_` or `-`.
abbrev pub IsCodeText : String → Type 0
IsCodeText String.[] = Unit
IsCodeText (String.◌∷◌ c s) = (is_code_byte (code_point c) ≡ true) × IsCodeText s

all_code_bytes-append :
    (bs cs : List ℕ) → all_code_bytes (bs ++ cs) ≡ (all_code_bytes bs && all_code_bytes cs)
unfolding all_code_bytes
all_code_bytes-append [] cs = refl
all_code_bytes-append (b ∷ bs) cs = ground (arith, all_code_bytes-append bs cs)

-- The bytes of a character outside ASCII are none of a code.
char_bytes-code :
    (c : ℕ)
    → all_code_bytes (char_bytes c) ≡ true
    → (is_code_byte c ≡ true) × (char_bytes c ≡ c ∷ [])
unfolding all_code_bytes char_bytes is_code_byte
char_bytes-code c h = ground arith

code_byte-char_bytes : (c : ℕ) → is_code_byte c ≡ true → char_bytes c ≡ c ∷ []
unfolding char_bytes is_code_byte
code_byte-char_bytes c h = ground arith

text_of_bytes :
    (s : String) → all_code_bytes (bytes s) ≡ true → IsCodeText s × (length (bytes s) ≡ chars s)
unfolding bytes chars
text_of_bytes String.[] h = (tt, refl)
text_of_bytes (String.◌∷◌ c s) h =
    let split = all_code_bytes-append (char_bytes (code_point c)) (bytes s) in
    let first : all_code_bytes (char_bytes (code_point c)) ≡ true = ground (arith, split) in
    let others : all_code_bytes (bytes s) ≡ true = ground (arith, split) in
    let (is, one) = char_bytes-code (code_point c) first in
    let (text, size) = text_of_bytes s others in ((is, text), rw one (omega (arith, size)))

bytes_of_text :
    (s : String) → IsCodeText s → (all_code_bytes (bytes s) ≡ true) × (length (bytes s) ≡ chars s)
unfolding bytes chars all_code_bytes
bytes_of_text String.[] h = (refl, refl)
bytes_of_text (String.◌∷◌ c s) (is, text) =
    let (all, size) = bytes_of_text s text in
    let one = code_byte-char_bytes (code_point c) is in
    (rw one (ground (arith, is, all)), rw one (omega (arith, size)))

-- `validate_custom_code` accepts exactly the texts of 4 to 32 characters, each an ASCII letter or
-- digit, `_` or `-`, though it counts bytes.
pub validate_custom_code_iff :
    (code : String)
    → (validate_custom_code code ≡ ok tt) ↔ ((4 ≤ chars code) × (chars code ≤ 32) × IsCodeText code)
unfolding validate_custom_code
validate_custom_code_iff code = (accepted, accepts)
  where
    accepted :
        validate_custom_code code ≡ ok tt → (4 ≤ chars code) × (chars code ≤ 32) × IsCodeText code
    accepted h =
        let all : all_code_bytes (bytes code) ≡ true = ground arith in
        let low : 4 ≤ length (bytes code) = ground arith in
        let high : length (bytes code) ≤ 32 = ground arith in
        let (text, size) = text_of_bytes code all in
        (omega (arith, low, size), omega (arith, high, size), text)

    accepts :
        (4 ≤ chars code) × (chars code ≤ 32) × IsCodeText code → validate_custom_code code ≡ ok tt
    accepts (low, high, text) =
        let (all, size) = bytes_of_text code text in ground (arith, all, size, low, high)

pub code_text-IsFreeOf : (s : String) → IsCodeText s → IsFreeOf b':' s
unfolding is_code_byte
code_text-IsFreeOf String.[] h = tt
code_text-IsFreeOf (String.◌∷◌ c s) (is, text) = ((λ e. ground arith), code_text-IsFreeOf s text)

-- Where a time to live is accepted, it is a minute at least, and the link with the resulting
-- expiry is expired exactly from `secs` seconds after the request on.
pub expires_at_from_ttl-is_expired :
    (secs : ℕ) (now : SystemTime) (at : Option SystemTime)
    → expires_at_from_ttl (some secs) now ≡ ok at
    → (60 ≤ secs)
      × ((code url : String) (created later : SystemTime)
          → is_expired (new_link code url at created) later ≡ leb_ℤ (add_secs now secs) later)
unfolding expires_at_from_ttl expires_at_from_secs new_link is_expired with_expires_at
expires_at_from_ttl-is_expired secs now none h = ground arith
expires_at_from_ttl-is_expired secs now (some t) h =
    let same : t ≡ add_secs now secs = ground arith in
    let long : 60 ≤ secs = ground arith in (long, λ code url created later. rw same refl)
