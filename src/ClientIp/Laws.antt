-- ===== src/ClientIp/Laws.antt =====
-- What a client can and cannot choose of its address.
use xapi_lrs.Prelude.{
  ◌-◌, ◌≤◌, String, ◌≡◌, refl, ap, ◌∙◌, false, some, List, [], ◌∷◌, ◌++◌, ◌==◌, leb, length,
  length-append, drop, arith,
}
use xapi_lrs.ClientIp.{or_unknown, part_before, forwarded_parts, resolve_client_ip}

drop-append : (xs ys : List String) → drop (length xs) (xs ++ ys) ≡ ys
drop-append [] ys = refl
drop-append (x ∷ xs) ys = drop-append xs ys

part_before-append :
    (forged proxies : List String) (address : String)
    → part_before (length proxies) (forged ++ address ∷ proxies) ≡ or_unknown address
unfolding part_before
part_before-append forged proxies address =
    let e = length-append forged (address ∷ proxies) in
    let enough : leb (length (forged ++ address ∷ proxies)) (length proxies) ≡ false =
      ground (arith, e) in
    let index : length (forged ++ address ∷ proxies) - length proxies - 1 ≡ length forged =
      omega (arith, e) in
    rw (enough, index, drop-append forged (address ∷ proxies)) refl

-- Behind at least one proxy, where the trusted proxies appended the last entries and the nearest
-- of them the client's address before, that address is the answer, whatever entries the client sent
-- itself. The address is assumed not to be empty.
pub resolve_client_ip-trusted :
    (header address : String) (forged proxies : List String)
    → (header == "") ≡ false
    → forwarded_parts header ≡ forged ++ address ∷ proxies
    → 1 ≤ length proxies
    → (address == "") ≡ false
    → resolve_client_ip (some header) (length proxies) ≡ address
unfolding resolve_client_ip
resolve_client_ip-trusted header address forged proxies full e enough named =
    let some_hops : leb (length proxies) 0 ≡ false = ground arith in
    let same : or_unknown address ≡ address = rw named refl in
    rw (full, some_hops)
      (ap (part_before (length proxies)) e ∙ (part_before-append forged proxies address ∙ same))
