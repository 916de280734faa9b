-- ===== src/Webapp/Ports.antt =====
-- The lookups of ports and VLANs in webapp/internal (portinfo, portlookup, vlans) and of host names (rdns).
-- The tables are those that the consumer writes. A query sees both tables at one time, or fails: `none`. A row
-- always scans, since the fields have the types of the columns.
pub mod Join
pub mod Info
pub mod Match
pub mod Matches
pub mod Listed
pub mod Vlans
pub mod Rdns
pub mod Laws
pub mod Answers
pub mod Stored
pub mod Named
pub mod Tests
