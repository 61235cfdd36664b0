-- ===== src/Tests/TokensTests.antt =====
-- internal/synctoken, over functions that have the properties relied on.
use mathlib.Core.List.{[], ◌∷◌, ◌++◌}
use mathlib.Core.Path.{◌≡◌, refl}
use nit.Base.{
  ◌+◌, ◌*◌, ◌-◌, ◌/◌, ◌%◌, true, Option, none, some, GoString, text, ok, ℤ, pos, negsuc, length,
  take, drop, take-length-append, drop-length-append, str_discrete, zero, suc, split_from,
}
use nit.Tokens.{
  Codec, TokenPayload, Signer, mac_with, dotted, issued, sign, verify, verify_parts, key_of_version,
}
use nit.Tokens.Verify.{verify-IsSignedBy, IsSignedBy}

-- Each byte as two letters.
unfoldable pub letters : GoString → GoString
letters [] = []
letters (b ∷ bs) = (97 + b / 16) ∷ (97 + b % 16) ∷ letters bs

unfoldable pub bytes : GoString → GoString
bytes [] = []
bytes (x ∷ []) = []
bytes (x ∷ y ∷ cs) = ((x - 97) * 16 + (y - 97)) ∷ bytes cs

-- A text with its length in front, and how it is read again.
abbrev framed : GoString → GoString → GoString
framed s rest = length s ∷ (s ++ rest)

abbrev signed_number : ℤ → GoString
signed_number (pos n) = 0 ∷ n ∷ []
signed_number (negsuc n) = 1 ∷ n ∷ []

abbrev number_of : GoString → Option ℤ
number_of (zero ∷ n ∷ []) = some (pos n)
number_of (suc k ∷ n ∷ []) = some (negsuc n)
number_of _ = none

abbrev frame : GoString → GoString × GoString
frame [] = ([], [])
frame (n ∷ s) = (take n s, drop n s)

frame-framed : (s rest : GoString) → frame (framed s rest) ≡ (s, rest)
frame-framed s rest = rw (take-length-append s rest, drop-length-append s rest) refl

abbrev written : TokenPayload → GoString
written p = framed p.workspace (
    framed p.repository (
      framed p.branch
        (framed p.upstream_commit (framed p.policy_version (signed_number p.issued_at)))))

abbrev with_number :
    GoString → GoString → GoString → GoString → GoString → Option ℤ → Option TokenPayload
with_number w r b u v none = none
with_number w r b u v (some t) = some (record {
  workspace = w;
  repository = r;
  branch = b;
  upstream_commit = u;
  policy_version = v;
  issued_at = t;
})

abbrev parsed : GoString → Option TokenPayload
parsed s =
    let (w, s1) = frame s in
    let (r, s2) = frame s1 in
    let (b, s3) = frame s2 in
    let (u, s4) = frame s3 in let (v, s5) = frame s4 in with_number w r b u v (number_of s5)

abbrev pub toy : Codec
toy = record {
  derive = λ root info. some (root ++ info);
  hmac = λ key message. key ++ message;
  encode = letters;
  decode = λ s. some (bytes s);
  marshal = λ p. some (written p);
  unmarshal = parsed;
  is_utf8 = λ s. true;
}

abbrev pub acme : Signer
acme = record { key = text "k1"; root = text "k0"; tenant = text "acme" }

abbrev payload : TokenPayload
payload = record {
  workspace = text "ws";
  repository = text "api";
  branch = text "main";
  upstream_commit = text "abc";
  policy_version = text "v1";
  issued_at = pos 0;
}

abbrev body : GoString
body = dotted (text "st2") (letters (written (issued 7 payload)))

abbrev token : GoString
token = dotted body (mac_with toy (text "k1") body)

signs : sign toy 7 acme payload ≡ ok token
unfolding sign letters
signs = refl

accepts : verify toy acme token ≡ ok (issued 7 payload)
unfolding verify verify_parts key_of_version split_from letters bytes str_discrete
accepts = refl

verify-IsSignedBy_example : IsSignedBy toy acme token (issued 7 payload)
verify-IsSignedBy_example = verify-IsSignedBy toy acme token (issued 7 payload) accepts
