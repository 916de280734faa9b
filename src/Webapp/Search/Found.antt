-- ===== src/Webapp/Search/Found.antt =====
-- Which addresses the query of webapp/internal/search finds.
use mathlib.Core.List.{Memᴰ}
use cisco_netconf_mac_db.Common.{distinct_on_lem, ◌≤◌, after}
use cisco_netconf_mac_db.Common.{
  ◌≡◌, refl, Bool, true, false, Bool-cases, inl, inr, Option, none, some, List, [], ◌∷◌, Text, All,
  text_eq, keep, keep-All, map, sort, flat_map_nil, distinct_on-All, text_has_eq,
  option_text_has_eq, arith, if◌then◌else◌,
}
use cisco_netconf_mac_db.Webapp.DbView.{MacRow, ArpRow}
use cisco_netconf_mac_db.Webapp.Search.{Result, has}
use cisco_netconf_mac_db.Webapp.Search.Sql.{
  Tables, newer_arp, latest_arp, better_mac, best_mac, rank, or_missing, arps_of, is_wanted,
  is_known, join_row, mac_results, arp_results, asked_arps, dedup, search_sql,
}

-- The ARP entry has another address.
abbrev pub IsElse : Text → ArpRow → Type 0
IsElse ip a = text_eq ip a.ip_address ≡ false

-- An ARP entry of the address has a MAC that mac_table knows.
abbrev pub IsKnownAt : List MacRow → Text → ArpRow → Type 0
IsKnownAt macs ip a = text_eq ip a.ip_address ≡ true → is_known macs a.mac_address ≡ true

module _ (t : Tables) (ip : Text) (m : MacRow) where
  one_result : Option ArpRow → List Result
  one_result a = if is_wanted [] (ip ∷ []) m a then join_row t m a else []

  abbrev IsElseOrNull : Option ArpRow → Type 0
  IsElseOrNull none = Unit
  IsElseOrNull (some a) = IsElse ip a

  one_result_nil : (a : Option ArpRow) → IsElseOrNull a → one_result a ≡ []
  unfolding one_result
  one_result_nil none h = refl
  one_result_nil (some a) h = rw h refl

  mapped : (xs : List ArpRow) → All (IsElse ip) xs → All (λ a. one_result a ≡ []) (map some xs)
  mapped [] h = tt
  mapped (a ∷ xs) (q, h) = (one_result_nil (some a) q, mapped xs h)

  missing : (xs : List ArpRow) → All (IsElse ip) xs → All (λ a. one_result a ≡ []) (or_missing xs)
  missing [] h = (one_result_nil none tt, tt)
  missing (a ∷ xs) h = mapped (a ∷ xs) h

  mac_results_nil : All (IsElse ip) (latest_arp t.arps) → mac_results t [] (ip ∷ []) m ≡ []
  unfolding mac_results one_result
  mac_results_nil h =
      flat_map_nil one_result (arps_of m.mac_address (latest_arp t.arps))
        (missing _ (keep-All (IsElse ip) _ (latest_arp t.arps) h))

each_mac_nil :
    (t : Tables) (ip : Text) (ms : List MacRow)
    → All (IsElse ip) (latest_arp t.arps)
    → All (λ m. mac_results t [] (ip ∷ []) m ≡ []) ms
each_mac_nil t ip [] h = tt
each_mac_nil t ip (m ∷ ms) h = (mac_results_nil t ip m h, each_mac_nil t ip ms h)

-- Of the entries with the address, none has a result of its own.
known_nil :
    (macs : List MacRow) (ip : Text) (xs : List ArpRow)
    → All (IsKnownAt macs ip) xs
    → All (λ a. arp_results macs a ≡ []) (keep (λ (a : ArpRow). has a.ip_address (ip ∷ [])) xs)
known_nil macs ip [] h = tt
known_nil macs ip (a ∷ xs) (q, h) = elim (Bool-cases (has a.ip_address (ip ∷ []))) [
  | inl u ↦
      let known : is_known macs a.mac_address ≡ true = q (ground arith) in
      rw u (rw known refl, known_nil macs ip xs h)
  | inr f ↦ rw f (known_nil macs ip xs h)
]

-- A search for an address alone finds nothing if no newest ARP entry of a MAC has that address, and each ARP entry
-- that has it has a MAC that is in mac_table.
pub older_address_not_found :
    (ilike less : Text → Text → Bool) (t : Tables) (ip : Text)
    → All (IsElse ip) (latest_arp t.arps)
    → All (IsKnownAt t.macs ip) t.arps
    → search_sql ilike less t [] (ip ∷ []) ≡ []
unfolding search_sql dedup sort
older_address_not_found ilike less t ip h k =
    rw
      (flat_map_nil (mac_results t [] (ip ∷ [])) (best_mac ilike t.macs)
        (each_mac_nil t ip (best_mac ilike t.macs) h))
      (rw
        (flat_map_nil (arp_results t.macs) (asked_arps (ip ∷ []) t.arps) (
          distinct_on-All (λ (a : ArpRow). a.ip_address) newer_arp (λ a. arp_results t.macs a ≡ [])
            _ (known_nil t.macs ip t.arps k)))
        refl)

-- Of two rows of one MAC, the first has a lower rank, or the same and no earlier time.
abbrev pub IsPreferred : (Text → Text → Bool) → MacRow → MacRow → Type 0
IsPreferred ilike m n =
    n.mac_address ≡ m.mac_address
    → (rank ilike m.interface ≤ rank ilike n.interface)
      × (rank ilike n.interface ≡ rank ilike m.interface
          → after n.collected_at m.collected_at ≡ false)

module _ (ilike : Text → Text → Bool) where
  preferred :
      (m : MacRow) (macs : List MacRow)
      → All (λ (n : MacRow). n.mac_address ≡ m.mac_address → better_mac ilike n m ≡ false) macs
      → All (IsPreferred ilike m) macs
  preferred m [] h = tt
  preferred m (n ∷ macs) (q, h) =
      (λ same. let worse = q same in (ground arith, λ r. ground arith), preferred m macs h)

  -- The query looks at just one row of each MAC of mac_table: a row of the least rank, and of those of that rank one
  -- of the latest.
  pub best_mac_lem :
      (macs : List MacRow)
      → ((n : MacRow)
          → Memᴰ n macs
          → (m : MacRow) × Memᴰ m (best_mac ilike macs) × (m.mac_address ≡ n.mac_address))
        × ((m : MacRow) → Memᴰ m (best_mac ilike macs) → All (IsPreferred ilike m) macs)
        × ((m m' : MacRow)
            → Memᴰ m (best_mac ilike macs)
            → Memᴰ m' (best_mac ilike macs)
            → m.mac_address ≡ m'.mac_address
            → m ≡ m')
  best_mac_lem macs =
      let (covers, firsts, unique) =
        distinct_on_lem (λ (m : MacRow). m.mac_address) (better_mac ilike) (λ m n h. ground arith)
          (λ a b c h k. ground arith) macs in
      (covers, λ m at. preferred m macs (firsts m at), unique)
