-- ===== src/Webapp/DbView/Tests.antt =====
-- webapp/internal/dbview on a small table.
use mathlib.Core.List.{Permᴰ}
use cisco_netconf_mac_db.Common.{
  ℕ, pos, negsuc, ◌+◌, ◌-◌, ◌*◌, ◌%◌, ◌^◌, ◌≤◌, ◌<◌, ◌⊎◌, take, drop, ◌≡◌, refl, Bool, none, some,
  List, [], ◌∷◌, Text, codes, text_eq, length, arith,
}
use cisco_netconf_mac_db.Webapp.DbView.{MacRow}
use cisco_netconf_mac_db.Webapp.DbView.Query.{atoi, parse_uint, pages_of, page_of, size_of}
use cisco_netconf_mac_db.Webapp.DbView.Select.{pattern_of, newest_first}
use cisco_netconf_mac_db.Webapp.DbView.Table.{database_error, table_page, mac_columns}
use cisco_netconf_mac_db.Webapp.DbView.Laws.{IsDescending, params_bounds}
use cisco_netconf_mac_db.Webapp.DbView.Pages.{
  snapshot, asked, first_pages, first_pages_cover, rows_of, wrapped_page,
}

abbrev mac : ℕ → Text → MacRow
mac id address = record {
  id = id;
  node_id = codes "sw1";
  mac_address = address;
  interface = none;
  vlan = some (pos 10);
  mac_type = none;
  collected_at = pos 5;
}

abbrev macs : List MacRow
macs = mac 1 (codes "00aa") ∷ mac 3 (codes "00bb") ∷ mac 2 (codes "00cc") ∷ []

-- A pattern that matches what is equal to the text between its signs.
abbrev exactly : Text → Text → Bool
exactly s pattern = text_eq (pattern_of s) pattern

atoi-minus : atoi (codes "-12") ≡ negsuc 11
unfolding atoi parse_uint codes
atoi-minus = refl

atoi-large : atoi (codes "9223372036854775808") ≡ pos (2 ^ 63 - 1)
unfolding atoi parse_uint codes
atoi-large = refl

first_pages_cover_example :
    let all =
      first_pages exactly
        (λ r. r.id)
        mac_columns
        (pages_of (length (asked exactly (λ r. r.id) mac_columns (codes "10") macs)) 2)
        (codes "10")
        2
        macs in
    Permᴰ all (asked exactly (λ r. r.id) mac_columns (codes "10") macs)
    × IsDescending (λ r. r.id) all
first_pages_cover_example =
    first_pages_cover exactly (λ r. r.id) mac_columns (codes "10") 2 macs (omega arith)
      (omega arith)

abbrev huge_page : ℕ
huge_page = 2 ^ 62 + 1

wrapped_page_example :
    let position = (huge_page - 1) * 4 % 2 ^ 64 in
    let shown =
      table_page exactly
        (λ r. r.id)
        mac_columns
        []
        huge_page
        4
        (snapshot exactly (λ r. r.id) mac_columns macs) in
    ((position < 2 ^ 63)
      × (rows_of shown
          ≡ take 4 (
              drop position
                (newest_first (λ r. r.id) (asked exactly (λ r. r.id) mac_columns [] macs)))))
    ⊎ ((2 ^ 63 ≤ position) × (shown ≡ database_error))
wrapped_page_example = wrapped_page exactly (λ r. r.id) mac_columns [] huge_page 4 macs

params_bounds_example :
    let page = codes "9999999999999999999999" in
    (1 ≤ page_of page)
    × (page_of page < 2 ^ 63)
    × (1 ≤ size_of (codes "-5"))
    × (size_of (codes "-5") ≤ 1000)
params_bounds_example = params_bounds (codes "9999999999999999999999") (codes "-5")
