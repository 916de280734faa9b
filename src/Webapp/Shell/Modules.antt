-- ===== src/Webapp/Shell/Modules.antt =====
-- The features of the web application: the `Module` values of webapp/internal with their routes, navigation links
-- and OpenAPI fragments. Of an operation or a schema in a fragment its `operationId` or its type is kept.
use cisco_netconf_mac_db.Common.{true, false, [], ◌∷◌, codes}
use cisco_netconf_mac_db.Webapp.Shell.{no_fragment, Module}

abbrev pub search_module : Module
search_module = record {
  routes = λ auth admin_auth. (codes "/api/search", auth) ∷ [];
  nav_links = [];
  fragment = record {
    paths = (codes "/api/search", codes "search") ∷ [];
    schemas =
        (codes "SearchRequest", codes "object") ∷ (codes "TelemetryRecord", codes "object") ∷ [];
  };
}

abbrev pub port_info_module : Module
port_info_module = record {
  routes = λ auth admin_auth. (codes "/api/port", auth) ∷ [];
  nav_links = [];
  fragment = record {
    paths = (codes "/api/port", codes "getPort") ∷ [];
    schemas = (codes "PortRecord", codes "object") ∷ [];
  };
}

abbrev pub port_lookup_module : Module
port_lookup_module = record {
  routes = λ auth admin_auth. (codes "/api/portlookup", auth) ∷ [];
  nav_links = [];
  fragment = record {
    paths = (codes "/api/portlookup", codes "portLookup") ∷ [];
    schemas =
        (codes "PortLookupRequest", codes "object")
        ∷ (codes "PortLookupResponse", codes "object")
        ∷ (codes "PortLookupMatch", codes "object")
        ∷ [];
  };
}

abbrev pub vlans_module : Module
vlans_module = record {
  routes = λ auth admin_auth. (codes "/api/vlans", auth) ∷ [];
  nav_links = [];
  fragment = record {
    paths = (codes "/api/vlans", codes "listVlans") ∷ [];
    schemas = (codes "VlansResponse", codes "object") ∷ (codes "VlanRecord", codes "object") ∷ [];
  };
}

abbrev pub rdns_module : Module
rdns_module = record {
  routes = λ auth admin_auth. (codes "/api/rdns", auth) ∷ [];
  nav_links = [];
  fragment = record {
    paths = (codes "/api/rdns", codes "rdns") ∷ [];
    schemas = (codes "RDNSResponse", codes "object") ∷ [];
  };
}

abbrev pub db_view_module : Module
db_view_module = record {
  routes = λ auth admin_auth.
      (codes "/dbview", auth)
      ∷ (codes "/api/db-inspect", auth)
      ∷ (codes "/api/db-inspect-table", auth)
      ∷ [];
  nav_links =
      record {
        label = codes "DB Inspector";
        href = codes "/dbview";
        admin_only = false;
        new_tab = false;
        header = true;
      }
      ∷ [];
  fragment = no_fragment;
}

abbrev pub tokens_module : Module
tokens_module = record {
  routes = λ auth admin_auth.
      (codes "/tokens", admin_auth)
      ∷ (codes "GET /api/tokens", admin_auth)
      ∷ (codes "POST /api/tokens", admin_auth)
      ∷ (codes "DELETE /api/tokens/{id}", admin_auth)
      ∷ [];
  nav_links =
      record {
        label = codes "API Tokens";
        href = codes "/tokens";
        admin_only = true;
        new_tab = false;
        header = false;
      }
      ∷ [];
  fragment = no_fragment;
}

abbrev pub swagger_module : Module
swagger_module = record {
  routes = λ auth admin_auth.
      (codes "/swagger", admin_auth) ∷ (codes "/api/openapi.json", admin_auth) ∷ [];
  nav_links =
      record {
        label = codes "API Docs";
        href = codes "/swagger";
        admin_only = true;
        new_tab = true;
        header = false;
      }
      ∷ [];
  fragment = no_fragment;
}
