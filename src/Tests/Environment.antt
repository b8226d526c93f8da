-- ===== src/Tests/Environment.antt =====
-- A concrete environment: a clock that advances a second with each effect, random sources that
-- always give the same number, and simple functions in place of bcrypt, SHA-256 and JWT that
-- satisfy what the code relies on.
use datn_backend.Prelude.{
  ℕ, zero, suc, ◌+◌, ◌*◌, ◌%◌, ◌≤◌, ◌<◌, ◌≡◌, refl, ap, sym, ◌∙◌, List, Bool, true, false, ◌==◌,
  ◌||◌, ◌&&◌, Option, none, some, [], ◌∷◌, arith, ltb, leb, if◌then◌else◌, inl, inr, Bool-cases,
}
use datn_backend.Prelude.Tables.{any}
use datn_backend.Text.{Text, text_eq, text_eq_iff, text_eq_refl}
use datn_backend.Domain.{Time, second}
use datn_backend.Domain.Claims.{AccessClaims, access, register}
use datn_backend.World.{World, Env, IsBcrypt, IsRandom, IsJwt, empty_db}

abbrev type_of : ℕ → Text
type_of zero = access
type_of (suc n) = register

abbrev sign_as : ℕ → Text → List Text → Option Time → Option Time → Option Time → Text → Option Text
sign_as flag subject (audience ∷ []) (some expires_at) (some not_before) (some issued_at) (n ∷ []) =
    some (expires_at ∷ not_before ∷ issued_at ∷ n ∷ flag ∷ subject)
sign_as flag subject audiences expires_at not_before issued_at id = none

abbrev sign_claims : ℕ → AccessClaims → Option Text
sign_claims flag c = sign_as flag c.subject c.audience c.expires_at c.not_before c.issued_at c.id

abbrev sign : AccessClaims → Option Text
sign c =
    if text_eq c.token_type access
    then sign_claims 0 c
    else if text_eq c.token_type register
    then sign_claims 1 c
    else none

abbrev parse : Text → Text → Time → Text → Option AccessClaims
parse issuer audience at (expires_at ∷ not_before ∷ issued_at ∷ n ∷ flag ∷ subject) =
    if leb not_before at && ltb at expires_at
    then some (record {
      token_type = type_of flag;
      issuer = issuer;
      subject = subject;
      audience = audience ∷ [];
      expires_at = some expires_at;
      not_before = some not_before;
      issued_at = some issued_at;
      id = n ∷ [];
    })
    else none
parse issuer audience at raw = none

abbrev text_leb : Text → Text → Bool
text_leb [] t = true
text_leb (c ∷ s) [] = false
text_leb (c ∷ s) (d ∷ t) = ltb c d || (c == d && text_leb s t)

abbrev pub env : Env
env = record {
  clock = λ n. (n + 1) * second;
  db_clock = λ n. (n + 1) * second;
  db_fails = λ n. false;
  collate = λ a b. text_leb a b;
  gen_random_uuid = λ n. n ∷ [];
  gen_random_uuid_again = λ n. n ∷ b'a' ∷ [];
  rand_int = λ n max. if ltb 0 max then some (42 % max) else none;
  rand_read = λ n count. some (n ∷ []);
  bcrypt_generate = λ n password. some (b'$' ∷ password);
  bcrypt_compare = λ hash password. text_eq hash (b'$' ∷ password);
  sha256_hex = λ s. b'#' ∷ s;
  lower_unicode = λ s. s;
  upper_unicode = λ s. s;
  parse_address = λ s. some s;
  jwt_sign = λ secret claims. sign claims;
  jwt_parse = λ secret issuer audience at raw. parse issuer audience at raw;
}

abbrev pub empty_world : World
empty_world = record { db = empty_db; steps = 0 }

pub env-IsRandom : IsRandom env
env-IsRandom = record { int_below = λ n max k e. ground (arith, 42 % max) }

pub env-IsBcrypt : IsBcrypt env
env-IsBcrypt = record {
  accepts = λ n password hash e. ground (arith, text_eq_refl (b'$' ∷ password));
}

parse-sign_as :
    (flag : ℕ) (issuer audience subject : Text) (audiences : List Text)
    (expires_at not_before issued_at : Option Time) (id raw : Text) (at : Time)
    → sign_as flag subject audiences expires_at not_before issued_at id ≡ some raw
    → any (text_eq audience) audiences ≡ true
    → ((t : Time) → not_before ≡ some t → t ≤ at)
    → ((t : Time) → expires_at ≡ some t → at < t)
    → parse issuer audience at raw
      ≡ some (record {
        token_type = type_of flag;
        issuer = issuer;
        subject = subject;
        audience = audiences;
        expires_at = expires_at;
        not_before = not_before;
        issued_at = issued_at;
        id = id;
      })
unfolding any
parse-sign_as flag issuer audience subject [] e n i id raw at h m a b = cc
parse-sign_as flag issuer audience subject (x ∷ y ∷ s) e n i id raw at h m a b = cc
parse-sign_as flag issuer audience subject (x ∷ []) none n i id raw at h m a b = cc
parse-sign_as flag issuer audience subject (x ∷ []) (some e) none i id raw at h m a b = cc
parse-sign_as flag issuer audience subject (x ∷ []) (some e) (some n) none id raw at h m a b = cc
parse-sign_as flag issuer audience subject (x ∷ []) (some e) (some n) (some i) [] raw at h m a b =
    cc
parse-sign_as flag issuer audience subject (x ∷ []) (some e) (some n) (some i) (k ∷ l ∷ id) raw at h
      m a b =
    cc
parse-sign_as flag issuer audience subject (x ∷ []) (some e) (some n) (some i) (k ∷ []) raw at h m a
      b =
    let same : e ∷ n ∷ i ∷ k ∷ flag ∷ subject ≡ raw = ground arith in
    let named : audience ≡ x = (text_eq_iff audience x).0 (ground arith) in
    let begun : leb n at ≡ true = ground (arith, a n refl) in
    let valid : ltb at e ≡ true = ground (arith, b e refl) in rw (← same, begun, valid, named) refl

parse-sign_claims :
    (flag : ℕ) (audience raw : Text) (at : Time) (c : AccessClaims)
    → c.token_type ≡ type_of flag
    → sign_claims flag c ≡ some raw
    → any (text_eq audience) c.audience ≡ true
    → ((t : Time) → c.not_before ≡ some t → t ≤ at)
    → ((t : Time) → c.expires_at ≡ some t → at < t)
    → parse c.issuer audience at raw ≡ some c
parse-sign_claims flag audience raw at c typed h m a b =
    parse-sign_as flag c.issuer audience c.subject c.audience c.expires_at c.not_before c.issued_at
      c.id raw at h m a b
    ∙ ap (λ t. some (record c { token_type = t })) (sym typed)

parse-sign :
    (audience raw : Text) (at : Time) (c : AccessClaims)
    → sign c ≡ some raw
    → any (text_eq audience) c.audience ≡ true
    → ((t : Time) → c.not_before ≡ some t → t ≤ at)
    → ((t : Time) → c.expires_at ≡ some t → at < t)
    → parse c.issuer audience at raw ≡ some c
parse-sign audience raw at c e m a b = elim (Bool-cases (text_eq c.token_type access)) [
  | inl t ↦
      parse-sign_claims 0 audience raw at c ((text_eq_iff c.token_type access).0 t) (rw t at e) m a
        b
  | inr t ↦ elim (Bool-cases (text_eq c.token_type register)) [
    | inl u ↦
        parse-sign_claims 1 audience raw at c ((text_eq_iff c.token_type register).0 u)
          (rw (t, u) at e) m a b
    | inr u ↦ absurd (ground arith)
  ]
]

parse_stable :
    (issuer audience raw : Text) (at later : Time) (c c' : AccessClaims)
    → parse issuer audience at raw ≡ some c
    → parse issuer audience later raw ≡ some c'
    → c ≡ c'
parse_stable issuer audience raw at later c c' e f = ground arith

pub env-IsJwt : IsJwt env
env-IsJwt = record {
  accepts = λ secret audience raw at claims e m a b. parse-sign audience raw at claims e m a b;
  stable = λ secret issuer audience raw at later claims claims' e f.
      parse_stable issuer audience raw at later claims claims' e f;
}
