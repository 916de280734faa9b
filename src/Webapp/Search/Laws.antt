-- ===== src/Webapp/Search/Laws.antt =====
-- What webapp/internal/search makes of the terms of a request.
use mathlib.Core.List.{foldl, append_assoc, append-nil}
use cisco_netconf_mac_db.Common.{
  ℕ, suc, ◌≡◌, refl, sym, ap, ◌∙◌, true, Bool-cases, ◌⊎◌, inl, inr, Option, none, some, List, [],
  ◌∷◌, ◌++◌, Text, is_empty, length, arith, if◌then◌else◌,
}
use cisco_netconf_mac_db.Webapp.Tokens.Trim.{trim_space}
use cisco_netconf_mac_db.Webapp.Search.Patterns.{
  Class, hex, separator, dot, matches, mac_pairs, mac_quads, mac_plain, mac_re, ip_re, host_re,
}
use cisco_netconf_mac_db.Webapp.Search.{
  hex_of, colon_form, dot_form, normalize_mac, mac, ip, hostname, TermRecord, Terms, no_terms,
  add_mac, add_ip, add_hostname, note, classify, classify_all,
}

-- How many hexadecimal digits a text of these classes has.
abbrev hex_count : List Class → ℕ
hex_count [] = 0
hex_count (hex ∷ ps) = suc (hex_count ps)
hex_count (separator ∷ ps) = hex_count ps
hex_count (dot ∷ ps) = hex_count ps

length-hex_of :
    (ps : List Class) (s : Text) → matches ps s ≡ true → length (hex_of s) ≡ hex_count ps
unfolding matches
length-hex_of [] [] h = refl
length-hex_of [] (c ∷ s) h = cc h
length-hex_of (p ∷ ps) [] h = cc h
length-hex_of (hex ∷ ps) (c ∷ s) h = ground (arith, length-hex_of ps s)
length-hex_of (separator ∷ ps) (c ∷ s) h = ground (arith, length-hex_of ps s)
length-hex_of (dot ∷ ps) (c ∷ s) h = ground (arith, length-hex_of ps s)

mac_re_cases :
    (s : Text)
    → mac_re s ≡ true
    → (matches mac_pairs s ≡ true) ⊎ (matches mac_quads s ≡ true) ⊎ (matches mac_plain s ≡ true)
unfolding mac_re
mac_re_cases s h = ground arith

digits-mac_re : (s : Text) → mac_re s ≡ true → length (hex_of s) ≡ 12
digits-mac_re s h = elim (mac_re_cases s h) [
  | inl p ↦ length-hex_of mac_pairs s p
  | inr (inl q) ↦ length-hex_of mac_quads s q
  | inr (inr q) ↦ length-hex_of mac_plain s q
]

-- Whatever form a MAC address is searched in, both of the stored forms are looked for: those of its
-- twelve hexadecimal digits in lower case. The case of a text with another number of digits does not occur.
pub normalize_mac_lem :
    (s : Text)
    → mac_re s ≡ true
    → (length (hex_of s) ≡ 12)
      × (normalize_mac s ≡ colon_form (hex_of s) ∷ dot_form (hex_of s) ∷ [])
unfolding normalize_mac
normalize_mac_lem s h = let twelve = digits-mac_re s h in (twelve, rw twelve refl)

-- What a term is reported under.
abbrev pub record_of : Text → Option TermRecord
record_of t =
    if is_empty t
    then none
    else if mac_re t
    then some (record { original = t; kind = mac; look_for = normalize_mac t })
    else if ip_re t
    then some (record { original = t; kind = ip; look_for = t ∷ [] })
    else if host_re t
    then some (record { original = t; kind = hostname; look_for = [] })
    else none

abbrev pub prepend : Option TermRecord → List TermRecord → List TermRecord
prepend none rs = rs
prepend (some r) rs = r ∷ rs

abbrev pub records_of : List Text → List TermRecord
records_of [] = []
records_of (t ∷ ts) = prepend (record_of (trim_space t)) (records_of ts)

records-add_macs : (s : Terms) (ts : List Text) → (foldl add_mac s ts).term_records ≡ s.term_records
records-add_macs s [] = refl
records-add_macs s (t ∷ ts) = records-add_macs (add_mac s t) ts ∙ ground arith

records-note :
    (s s' : Terms) (r : TermRecord) (rs : List TermRecord)
    → s'.term_records ≡ s.term_records
    → (note s' r).term_records ++ rs ≡ s.term_records ++ r ∷ rs
records-note s s' r rs e =
    append_assoc s'.term_records (r ∷ []) rs ∙ ap (λ (l : List TermRecord). l ++ r ∷ rs) e

records-add_ip : (s : Terms) (t : Text) → (add_ip s t).term_records ≡ s.term_records
records-add_ip s t = ground arith

records-add_hostname : (s : Terms) (t : Text) → (add_hostname s t).term_records ≡ s.term_records
records-add_hostname s t = ground arith

records-classify :
    (s : Terms) (t : Text) (rs : List TermRecord)
    → (classify s t).term_records ++ rs ≡ s.term_records ++ prepend (record_of t) rs
unfolding classify
records-classify s t rs = elim (Bool-cases (is_empty t)) [
  | inl e ↦ rw e refl
  | inr e ↦ rw e (elim (Bool-cases (mac_re t)) [
    | inl m ↦ rw m (
        records-note s (foldl add_mac s (normalize_mac t)) _ rs
          (records-add_macs s (normalize_mac t)))
    | inr m ↦ rw m (elim (Bool-cases (ip_re t)) [
      | inl i ↦ rw i (records-note s (add_ip s t) _ rs (records-add_ip s t))
      | inr i ↦ rw i (elim (Bool-cases (host_re t)) [
        | inl h ↦ rw h (records-note s (add_hostname s t) _ rs (records-add_hostname s t))
        | inr h ↦ rw h refl
      ])
    ])
  ])
]

records-foldl :
    (s : Terms) (ts : List Text)
    → (foldl (λ s t. classify s (trim_space t)) s ts).term_records ≡ s.term_records ++ records_of ts
records-foldl s [] = sym (append-nil s.term_records)
records-foldl s (t ∷ ts) =
    records-foldl (classify s (trim_space t)) ts ∙ records-classify s (trim_space t) (records_of ts)

-- Each term that is a MAC address, an IP address or a host name once the space around it is taken off gives
-- one record, in the order of the request, also where it repeats another term; the other terms give
-- none.
pub classify_all_records :
    (terms : List Text) → (classify_all terms).term_records ≡ records_of terms
unfolding classify_all
classify_all_records terms = records-foldl no_terms terms
