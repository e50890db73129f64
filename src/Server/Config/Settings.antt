-- ===== src/Server/Config/Settings.antt =====
-- How each setting of the configuration ends.
use otus_rusthomework_http_a.Common.{
  ℤ, String, ◌≡◌, refl, sym, ap, ◌∙◌, Bool, true, false, ◌&&◌, ◌||◌, Option, none, some, List, [],
  ◌∷◌, if◌then◌else◌,
}
use otus_rusthomework_http_a.Common.Outcome.{Outcome, ok, panic, bind}
use otus_rusthomework_http_a.Common.Text.{parse_i64}
use otus_rusthomework_http_a.Server.Auth.{AuthConfig}
use otus_rusthomework_http_a.Server.Config.{
  Config, Setting, parsed_var, taken_var, redis_setting, disable_auth, set_auth, parsed_ttl,
  run_settings,
}

-- A setting that ends where `good` holds, with the configuration `f c`, and panics otherwise.
pub record Ends (m : Setting) (good : Config → Bool) (f : Config → Config) : Type 0 where
  pub at : (c : Config) → m c ≡ (if good c then ok (f c) else panic)

abbrev pub reads : {A : Type 0} → (String → Option A) → Option String → Bool
reads parse none = true
reads parse (some val) = elim (parse val) [ none ↦ false | some a ↦ true ]

-- The value of a variable, or the one before.
abbrev pub value_or : {A : Type 0} → (String → Option A) → A → Option String → A
value_or parse a none = a
value_or parse a (some val) = elim (parse val) [ none ↦ a | some b ↦ b ]

abbrev pub is_set : Option String → Bool
is_set none = false
is_set (some val) = true

module _ {A : Type 0} (get : Config → A) (set : A → Config → Config)
    (same : (c : Config) → set (get c) c ≡ c) where
  pub parsed_var-Ends :
      (parse : String → Option A) (o : Option String)
      → Ends (parsed_var parse set o) (λ c. reads parse o) (λ c. set (value_or parse (get c) o) c)
  parsed_var-Ends parse none = record { at = λ c. ap ok (sym (same c)) }
  parsed_var-Ends parse (some val) = record { at = λ c. by_result c (parse val) }
    where
      by_result :
          (c : Config) (r : Option A)
          → elim r as (λ x. Outcome ⊥ Config) [ none ↦ panic | some a ↦ ok (set a c) ] ≡ (
              if (elim r as (λ x. Bool) [ none ↦ false | some a ↦ true ])
              then ok (set (elim r as (λ x. A) [ none ↦ get c | some b ↦ b ]) c)
              else panic)
      by_result c none = refl
      by_result c (some a) = refl

abbrev pub text_or : {A : Type 0} → (String → A) → A → Option String → A
text_or read a none = a
text_or read a (some val) = read val

module _ {A : Type 0} (get : Config → A) (put : A → Config → Config)
    (same : (c : Config) → put (get c) c ≡ c) where
  pub taken_var-Ends :
      (read : String → A) (o : Option String)
      → Ends (taken_var (λ val. put (read val)) o) (λ c. true) (λ c. put (text_or read (get c) o) c)
  taken_var-Ends read none = record { at = λ c. ap ok (sym (same c)) }
  taken_var-Ends read (some val) = record { at = λ c. refl }

module _ (get : AuthConfig → String) (put : String → AuthConfig → AuthConfig)
    (same : (a : AuthConfig) → put (get a) a ≡ a) where
  pub auth-Ends :
      (o : Option String)
      → Ends
          (taken_var (λ val. set_auth (put val)) o)
          (λ c. true)
          (set_auth λ a. put (text_or (λ val. val) (get a) o) a)
  auth-Ends none = record { at = λ c. kept c c.auth refl }
    where
      kept :
          (c : Config) (auth : Option AuthConfig)
          → c.auth ≡ auth
          → ◌≡◌ {A = Outcome ⊥ Config}
              (ok c)
              (ok (record c { auth = elim auth [ none ↦ none | some a ↦ some (put (get a) a) ] }))
      kept c none e = ap (λ (x : Option AuthConfig). ok (record c { auth = x })) e
      kept c (some a) e =
          ap (λ (x : Option AuthConfig). ok (record c { auth = x })) (e ∙ ap some (sym (same a)))
  auth-Ends (some val) = record { at = λ c. refl }

pub redis_setting-Ends :
    (url disabled : Option String)
    → Ends
        (redis_setting url disabled)
        (λ c. true)
        (λ c. record c {
          redis_url = text_or some (if is_set disabled then none else c.redis_url) url;
        })
redis_setting-Ends (some val) none = record { at = λ c. refl }
redis_setting-Ends (some val) (some d) = record { at = λ c. refl }
redis_setting-Ends none none = record { at = λ c. refl }
redis_setting-Ends none (some d) = record { at = λ c. refl }

pub disable_auth-Ends :
    (o : Option String)
    → Ends (disable_auth o) (λ c. true) (λ c. record c { auth = if is_set o then none else c.auth })
disable_auth-Ends none = record { at = λ c. refl }
disable_auth-Ends (some val) = record { at = λ c. refl }

abbrev pub is_off : Option AuthConfig → Bool
is_off none = true
is_off (some auth) = false

abbrev ended : Option String → Config → Option AuthConfig → Config
ended o c auth = record c {
  auth = elim auth [
    | none ↦ none
    | some a ↦
        some (record a { access_token_ttl_secs = value_or parse_i64 a.access_token_ttl_secs o })
  ];
}

ttl_result :
    (c : Config) (a : AuthConfig) (r : Option ℤ)
    → elim r as (λ x. Outcome ⊥ Config) [
      | none ↦ panic
      | some n ↦ ok (record c { auth = some (record a { access_token_ttl_secs = n }) })
    ]
      ≡ (if (elim r as (λ x. Bool) [ none ↦ false | some n ↦ true ])
          then ok (record c {
            auth = some (record a {
              access_token_ttl_secs = elim r as (λ x. ℤ) [
                | none ↦ a.access_token_ttl_secs
                | some n ↦ n
              ];
            });
          })
          else panic)
ttl_result c a none = refl
ttl_result c a (some n) = refl

ttl_by_auth :
    (o : Option String) (c : Config) (auth : Option AuthConfig)
    → c.auth ≡ auth
    → parsed_ttl o auth c
      ≡ (if is_off auth || reads parse_i64 o then ok (ended o c auth) else panic)
ttl_by_auth none c none e = ap (λ (x : Option AuthConfig). ok (record c { auth = x })) e
ttl_by_auth none c (some a) e = ap (λ (x : Option AuthConfig). ok (record c { auth = x })) e
ttl_by_auth (some val) c none e = ap (λ (x : Option AuthConfig). ok (record c { auth = x })) e
ttl_by_auth (some val) c (some a) e = ttl_result c a (parse_i64 val)

pub parsed_ttl-Ends :
    (o : Option String)
    → Ends
        (λ c. parsed_ttl o c.auth c)
        (λ c. is_off c.auth || reads parse_i64 o)
        (set_auth
          λ a. record a { access_token_ttl_secs = value_or parse_i64 a.access_token_ttl_secs o })
parsed_ttl-Ends o = record { at = λ c. ttl_by_auth o c c.auth refl }

pub record EndsAll (ms : List Setting) (good : Config → Bool) (f : Config → Config) : Type 0 where
  pub at : (c : Config) → run_settings ms c ≡ (if good c then ok (f c) else panic)

pub no_setting : EndsAll [] (λ c. true) (λ c. c)
unfolding run_settings
no_setting = record { at = λ c. refl }

infixr 10 ◌>>>◌
pub ◌>>>◌ :
    {m : Setting} {good : Config → Bool} {f : Config → Config} {rest : List Setting}
    {goods : Config → Bool} {g : Config → Config}
    → Ends m good f
    → EndsAll rest goods g
    → EndsAll (m ∷ rest) (λ c. good c && goods (f c)) (λ c. g (f c))
unfolding run_settings
◌>>>◌ {m} {good} {f} {rest} {goods} {g} e h = record {
  at = λ c. ap (λ (o : Outcome ⊥ Config). bind o (run_settings rest)) (e.at c) ∙ by_test c (good c);
}
  where
    by_test :
        (c : Config) (b : Bool)
        → bind (if b then ok (f c) else panic) (run_settings rest)
          ≡ (if b && goods (f c) then ok (g (f c)) else panic)
    by_test c true = h.at (f c)
    by_test c false = refl
