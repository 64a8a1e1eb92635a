-- ===== src/Accounts/Frames.antt =====
-- A token library for the concrete runs: a token is the claims, the algorithm and the secret, each behind
-- its length in unary, and decodes with the same secret, algorithm and audience only.
use Prim.Native.String.{◌++◌ as str_append}
use Prim.Native.Char.{Char, code}
use text.Mathlib.TextLemmas.{nil-append, cons-append}
use lead_generation_api_zyla.Prelude.{
  ℕ, zero, suc, String, ◌&&◌, ◌||◌, ◌==◌, true, false, ◌≡◌, refl, sym, ◌∙◌, ap, ◌+◌, eqb, Option,
  none, some, List, [], ◌∷◌, if◌then◌else◌, arith, eq_iff,
}
use lead_generation_api_zyla.Prelude.Text.{mem, startswith, drop_prefix}
use lead_generation_api_zyla.Json.{Fields, str, field, end}
use lead_generation_api_zyla.Security.{Claims, Library}
use lead_generation_api_zyla.Accounts.Tokens.{DecodesTokens}

abbrev comma : Char
comma = ","

abbrev dot : Char
dot = "."

-- one mark for each character of a text, and another behind them
marks : String → String → String
marks String.[] rest = String.◌∷◌ dot rest
marks (String.◌∷◌ c s) rest = String.◌∷◌ comma (marks s rest)

text_length : String → ℕ
text_length String.[] = 0
text_length (String.◌∷◌ c s) = suc (text_length s)

frame : String → String → String
unfolding marks
frame s rest = marks s (str_append s rest)

abbrev with_first : Char → Option (String × String) → Option (String × String)
with_first c none = none
with_first c (some (s, rest)) = some (String.◌∷◌ c s, rest)

split : ℕ → String → Option (String × String)
split zero s = some ("", s)
split (suc n) String.[] = none
split (suc n) (String.◌∷◌ c s) = with_first c (split n s)

unmark : ℕ → String → Option (String × String)
unfolding split
unmark n String.[] = none
unmark n (String.◌∷◌ c s) =
    let rest = unmark (suc n) s in if eqb (code c) 46 then split n s else rest

unframe : String → Option (String × String)
unfolding unmark
unframe s = unmark 0 s

split-append : (s rest : String) → split (text_length s) (str_append s rest) ≡ some (s, rest)
unfolding split text_length
split-append String.[] rest = rw (nil-append rest) refl
split-append (String.◌∷◌ c s) rest = rw (cons-append c s rest, split-append s rest) refl

unmark-marks : (n : ℕ) (s rest : String) → unmark n (marks s rest) ≡ split (n + text_length s) rest
unfolding unmark marks text_length
unmark-marks n String.[] rest =
    let same : n + 0 ≡ n = omega arith in ap (λ k. split k rest) (sym same)
unmark-marks n (String.◌∷◌ c s) rest =
    let same : suc n + text_length s ≡ n + suc (text_length s) = omega arith in
    unmark-marks (suc n) s rest ∙ ap (λ k. split k rest) same

unframe-frame : (s rest : String) → unframe (frame s rest) ≡ some (s, rest)
unfolding unframe frame
unframe-frame s rest =
    let none_before : 0 + text_length s ≡ text_length s = omega arith in
    unmark-marks 0 s (str_append s rest)
    ∙ (ap (λ n. split n (str_append s rest)) none_before ∙ split-append s rest)

abbrev with_text : String → Option (List String) → Option (List String)
with_text t none = none
with_text t (some ts) = some (t ∷ ts)

-- the texts of so many frames
unframe_all : ℕ → Option (String × String) → Option (List String)
unframe_all zero none = none
unframe_all zero (some (t, rest)) = some (t ∷ [])
unframe_all (suc n) none = none
unframe_all (suc n) (some (t, rest)) = with_text t (unframe_all n (unframe rest))

-- what a token holds: subject, tenant, audience, algorithm and secret
abbrev payload_of : Option (List String) → String → List String → String → Option Fields
payload_of (some (sub ∷ tenant ∷ aud ∷ alg ∷ key ∷ [])) secret algorithms audience =
    if (aud == audience) && (mem alg algorithms && (key == secret))
    then some (field "sub" (str sub) (field "tenant_id" (str tenant) end))
    else none
payload_of _ secret algorithms audience = none

pub encoded : Claims → String → String → String
unfolding frame
encoded c secret algorithm =
    frame c.sub (frame c.tenant_id (frame c.aud (frame algorithm (frame secret ""))))

pub decoded : ℕ → String → String → List String → String → Option Fields
unfolding unframe_all unframe
decoded now token secret algorithms audience =
    payload_of (unframe_all 4 (unframe token)) secret algorithms audience

abbrev pub frame_lib : Library
frame_lib = record {
  sha256 = λ t. str_append "sha:" t;
  hash = λ salt password. str_append salt password;
  verify = λ password_hash password. password_hash == str_append "salt" password;
  encode = encoded;
  decode = decoded;
  jwt_secret = "a secret";
  jwt_algorithm = "HS256";
  access_token_minutes = 30;
}

-- a token starts with a mark
marks-head : (s rest prefix : String) → startswith (marks s rest) (String.◌∷◌ "l" prefix) ≡ false
unfolding marks startswith drop_prefix
marks-head String.[] rest prefix = refl
marks-head (String.◌∷◌ c s) rest prefix = refl

encoded-raw :
    (c : Claims) (secret algorithm : String)
    → (startswith (encoded c secret algorithm) "lg_test_"
        || startswith (encoded c secret algorithm) "lg_live_")
      ≡ false
unfolding encoded frame
encoded-raw c secret algorithm =
    rw (marks-head c.sub _ "g_test_", marks-head c.sub _ "g_live_") refl

last_frame : (s : String) → unframe_all 0 (unframe (frame s "")) ≡ some (s ∷ [])
unfolding unframe_all
last_frame s = rw (unframe-frame s "") refl

next_frame :
    (n : ℕ) (s rest : String) (ts : List String)
    → unframe_all n (unframe rest) ≡ some ts
    → unframe_all (suc n) (unframe (frame s rest)) ≡ some (s ∷ ts)
unfolding unframe_all
next_frame n s rest ts h = rw (unframe-frame s rest, h) refl

unframe_all-encoded :
    (c : Claims) (secret algorithm : String)
    → unframe_all 4 (unframe (encoded c secret algorithm))
      ≡ some (c.sub ∷ c.tenant_id ∷ c.aud ∷ algorithm ∷ secret ∷ [])
unfolding encoded
unframe_all-encoded c secret algorithm = next_frame 3 c.sub _ _ (
    next_frame 2 c.tenant_id _ _
      (next_frame 1 c.aud _ _ (next_frame 0 algorithm _ _ (last_frame secret))))

pub frame_lib-DecodesTokens : (secret algorithm : String) → DecodesTokens frame_lib secret algorithm
unfolding decoded
frame_lib-DecodesTokens secret algorithm = record {
  decodes = λ c now issued fresh.
      let checks : ((c.aud == c.aud) && (mem algorithm (algorithm ∷ []) && (secret == secret)))
          ≡ true =
        ground (arith, eq_iff c.aud c.aud, eq_iff algorithm algorithm, eq_iff secret secret) in
      (
        field "sub" (str c.sub) (field "tenant_id" (str c.tenant_id) end),
        rw (unframe_all-encoded c secret algorithm, checks) refl,
        refl,
        refl,
      );
  not_raw_key = λ c. encoded-raw c secret algorithm;
}
