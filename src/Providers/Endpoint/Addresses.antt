-- ===== src/Providers/Endpoint/Addresses.antt =====
-- The addresses that are never called.
use crmtsi_app.Common.{
  ℕ, ◌≡◌, refl, ap, subst, ◌∙◌, Bool, true, false, not, ◌&&◌, ◌||◌, Option, some, List, [], ◌∷◌,
  ◌++◌, Result, ok, err, ◌>>◌, require, arith, String, Text, codes, decimal, text_eq, any_of, In,
  here, there, In-All, All, starts_with, ◌==◌, Object, field_of,
}
use crmtsi_app.Providers.Endpoint.{
  Url, internal_ports, blocked_hosts, is_private_ip, is_private_second, is_localhost, port_of,
  check_url, check_parsed, text_of, code, invalid, Reply, Request, test_waha_connection,
  validate_waha_endpoint,
}

abbrev second_octets : List ℕ
second_octets = 16 ∷ 17 ∷ 18 ∷ 19 ∷ 20 ∷ 21 ∷ 22 ∷ 23 ∷ 24 ∷ 25 ∷ 26 ∷ 27 ∷ 28 ∷ 29 ∷ 30 ∷ 31 ∷ []

-- An address inside the network of the server: a host that answers the metadata of a cloud, one that
-- begins like a private address, a scheme other than the web's, or a port of an internal service.
pub data IsUnsafe : Url → Type 0 where
  metadata : {u : Url} {host : Text} → In host blocked_hosts → u.hostname ≡ host → IsUnsafe u
  ten : {u : Url} (t : Text) → u.hostname ≡ codes "10." ++ t → IsUnsafe u
  one_seven_two :
      {u : Url} {n : ℕ} (t : Text)
      → In n second_octets
      → u.hostname ≡ codes "172." ++ (decimal n ++ (codes "." ++ t))
      → IsUnsafe u
  one_nine_two : {u : Url} (t : Text) → u.hostname ≡ codes "192.168." ++ t → IsUnsafe u
  scheme :
      {u : Url}
      → text_eq u.protocol (codes "http:") ≡ false
      → text_eq u.protocol (codes "https:") ≡ false
      → IsUnsafe u
  internal : {u : Url} {p : ℕ} → In p internal_ports → port_of u ≡ p → IsUnsafe u

abbrev done : Result (Unit {0})
done = ok tt

refused :
    (a b c d : Bool) (e1 e2 e3 e4 : String)
    → a && (b && (c && d)) ≡ false
    → (e : String) × ((require a e1 >> (require b e2 >> (require c e3 >> (require d e4 >> done))))
        ≡ err e)
refused false b c d e1 e2 e3 e4 h = (e1, refl)
refused true false c d e1 e2 e3 e4 h = (e2, refl)
refused true true false d e1 e2 e3 e4 h = (e3, refl)
refused true true true false e1 e2 e3 e4 h = (e4, refl)
refused true true true true e1 e2 e3 e4 h = cc

private_second :
    (t : Text) → All (λ n. is_private_second (decimal n ++ (codes "." ++ t)) ≡ true) second_octets
unfolding decimal
private_second t = (
  refl,
  (
    refl,
    (
      refl,
      (
        refl,
        (
          refl,
          (
            refl,
            (refl, (refl, (refl, (refl, (refl, (refl, (refl, (refl, (refl, (refl, tt)))))))))),
          ),
        ),
      ),
    ),
  ),
)

abbrev hidden : Text → Bool
hidden host = is_private_ip host && not (is_localhost host)

ten_hidden : (t : Text) → hidden (codes "10." ++ t) ≡ true
unfolding is_private_ip text_eq starts_with
ten_hidden t = refl

one_nine_two_hidden : (t : Text) → hidden (codes "192.168." ++ t) ≡ true
unfolding is_private_ip text_eq starts_with
one_nine_two_hidden t = refl

one_seven_two_hidden : (t : Text) → is_private_second t ≡ true → hidden (codes "172." ++ t) ≡ true
unfolding is_private_ip text_eq starts_with
one_seven_two_hidden t h = ground (arith, h)

text_eq_refl : (t : Text) → text_eq t t ≡ true
unfolding text_eq
text_eq_refl [] = refl
text_eq_refl (c ∷ t) = ground (arith, text_eq_refl t)

any_of-In {ℓ} :
    {A : Type ℓ} (p : A → Bool) (xs : List A) {a : A} → In a xs → p a ≡ true → any_of p xs ≡ true
any_of-In p [] m h = elim m [ ]
any_of-In p (x ∷ xs) here h = ground (arith, h)
any_of-In p (x ∷ xs) (there m) h = ground (arith, any_of-In p xs m h)

abbrev is_web : Url → Bool
is_web u = text_eq u.protocol (codes "http:") || text_eq u.protocol (codes "https:")

abbrev is_internal : Url → Bool
is_internal u = any_of (λ p. p == port_of u) internal_ports

second_fails : (a b c : Bool) → b ≡ true → not a && (not b && c) ≡ false
second_fails a b c h = ground (arith, h)

third_fails : (a b c d : Bool) → c ≡ false → a && (b && (c && d)) ≡ false
third_fails a b c d h = ground (arith, h)

fourth_fails : (a b c d : Bool) → d ≡ true → a && (b && (c && not d)) ≡ false
fourth_fails a b c d h = ground (arith, h)

first_fails : (a b : Bool) → a ≡ true → not a && b ≡ false
first_fails a b h = ground (arith, h)

private_fails :
    (u : Url)
    → hidden u.hostname ≡ true
    → not (any_of (text_eq u.hostname) blocked_hosts)
        && (not (hidden u.hostname) && (is_web u && not (is_internal u)))
      ≡ false
private_fails u h =
    second_fails (any_of (text_eq u.hostname) blocked_hosts) (hidden u.hostname)
      (is_web u && not (is_internal u)) h

unsafe_fails :
    (u : Url)
    → IsUnsafe u
    → not (any_of (text_eq u.hostname) blocked_hosts)
        && (not (hidden u.hostname) && (is_web u && not (is_internal u)))
      ≡ false
unsafe_fails u (metadata {host = host} m e) =
    let same : text_eq u.hostname host ≡ true =
      subst (λ h. text_eq u.hostname h ≡ true) e (text_eq_refl u.hostname) in
    first_fails (any_of (text_eq u.hostname) blocked_hosts)
      (not (hidden u.hostname) && (is_web u && not (is_internal u)))
      (any_of-In (text_eq u.hostname) blocked_hosts m same)
unsafe_fails u (ten t e) = private_fails u (ap hidden e ∙ ten_hidden t)
unsafe_fails u (one_seven_two {n = n} t m e) = private_fails u (
    ap hidden e
    ∙ one_seven_two_hidden (decimal n ++ (codes "." ++ t)) (
        In-All (λ n. is_private_second (decimal n ++ (codes "." ++ t)) ≡ true) m
          (private_second t)))
unsafe_fails u (one_nine_two t e) = private_fails u (ap hidden e ∙ one_nine_two_hidden t)
unsafe_fails u (scheme a b) =
    third_fails (not (any_of (text_eq u.hostname) blocked_hosts)) (not (hidden u.hostname))
      (is_web u) (not (is_internal u)) (rw (a, b) refl)
unsafe_fails u (internal {p = p} m e) =
    fourth_fails (not (any_of (text_eq u.hostname) blocked_hosts)) (not (hidden u.hostname))
      (is_web u) (is_internal u)
      (any_of-In (λ q. q == port_of u) internal_ports m (ground (arith, e)))

check_fails : (u : Url) → IsUnsafe u → (e : String) × (check_url u ≡ err e)
unfolding check_url
check_fails u bad =
    refused (not (any_of (text_eq u.hostname) blocked_hosts)) (not (hidden u.hostname)) (is_web u)
      (not (is_internal u)) "SSRF_BLOCKED_METADATA" "SSRF_BLOCKED_PRIVATE_IP"
      "SSRF_BLOCKED_PROTOCOL" "SSRF_BLOCKED_INTERNAL_PORT" (unsafe_fails u bad)

module _ (parse_url : Text → Option Url) where
  -- A WAHA provider whose base address is not safe fails its connection test with one code, whatever a
  -- request would answer.
  pub unsafe_not_called :
      (config : Object) (credentials : Option Object) (u : Url)
      → parse_url (text_of (field_of config "baseUrl")) ≡ some u
      → IsUnsafe u
      → (e : String) × ((fetch : Request → Reply)
          → test_waha_connection parse_url fetch config credentials ≡ invalid (code e))
  unfolding test_waha_connection validate_waha_endpoint check_parsed check_url
  unsafe_not_called config credentials u h bad =
      let (e, why) = check_fails u bad in (e, λ fetch. ground (arith, h, why))
