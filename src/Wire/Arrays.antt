-- ===== src/Wire/Arrays.antt =====
-- The arrays of MAC and ARP entries, encoded and decoded.
use mathlib.Core.Option
use cisco_netconf_mac_db.Common.{
  ◌^◌, ◌<◌, ◌≡◌, refl, ap, ◌∙◌, Option, some, List, [], ◌∷◌, map, All, Text, Time,
}
use cisco_netconf_mac_db.Payload.{MacEntry, ArpEntry}
use cisco_netconf_mac_db.Wire.Json.{Object}
use cisco_netconf_mac_db.Wire.Encode.{encode_mac, encode_arp, encode_all}
use cisco_netconf_mac_db.Wire.Decode.{decode_mac, decode_arp, decode_all}
use cisco_netconf_mac_db.Wire.Laws.{IsReadable, map_id, bind_some, mac_round_trip, arp_round_trip}

-- A whole array: what each entry comes back as, the array comes back as.
pub encode_all_round_trip :
    {E F : Type 0} (encode : E → Option Object) (decode : Object → Option F) (get : E → F)
    (es : List E)
    → All (λ e. Option.bind (encode e) decode ≡ some (get e)) es
    → Option.bind (encode_all encode es) (decode_all decode) ≡ some (map get es)
unfolding Option.bind
encode_all_round_trip encode decode get [] h = refl
encode_all_round_trip encode decode get (e ∷ es) (h, hs) =
    let (o, f, d) = bind_some (encode e) decode (get e) h in
    let rest = encode_all_round_trip encode decode get es hs in
    let (os, fs, ds) = bind_some (encode_all encode es) (decode_all decode) (map get es) rest in
    rw (f, fs, d, ds) refl

module _ (format : Time → Option Text) (parse_time : Text → Option Time) where
  abbrev pub IsSentMac : MacEntry → Type 0
  IsSentMac e = IsReadable format parse_time e.timestamp × (e.vlan < 2 ^ 32)

  abbrev pub IsSentArp : ArpEntry → Type 0
  IsSentArp e = IsReadable format parse_time e.timestamp × (e.age < 2 ^ 32)

  macs_back :
      (es : List MacEntry)
      → All IsSentMac es
      → All (λ e. Option.bind (encode_mac format e) (decode_mac parse_time) ≡ some e) es
  macs_back [] h = tt
  macs_back (e ∷ es) ((t, v), h) = (mac_round_trip format parse_time e t v, macs_back es h)

  arps_back :
      (es : List ArpEntry)
      → All IsSentArp es
      → All (λ e. Option.bind (encode_arp format e) (decode_arp parse_time) ≡ some e) es
  arps_back [] h = tt
  arps_back (e ∷ es) ((t, v), h) = (arp_round_trip format parse_time e t v, arps_back es h)

  -- The lists of MAC entries and of ARP entries come back as they were, in the same order. The text of each time is
  -- read as that time, and each VLAN and age fits 32 bits.
  pub entries_round_trip :
      (macs : List MacEntry) (arps : List ArpEntry)
      → All IsSentMac macs
      → All IsSentArp arps
      → (Option.bind (encode_all (encode_mac format) macs) (decode_all (decode_mac parse_time))
          ≡ some macs)
        × (Option.bind (encode_all (encode_arp format) arps) (decode_all (decode_arp parse_time))
            ≡ some arps)
  entries_round_trip macs arps m a = (
    encode_all_round_trip (encode_mac format) (decode_mac parse_time) (λ e. e) macs
          (macs_back macs m)
        ∙ ap some (map_id macs),
    encode_all_round_trip (encode_arp format) (decode_arp parse_time) (λ e. e) arps
          (arps_back arps a)
        ∙ ap some (map_id arps),
  )
