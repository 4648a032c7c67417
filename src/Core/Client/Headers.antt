-- ===== src/Core/Client/Headers.antt =====
-- src/core/client.ts: headers in the order of insertion, and the query of a path.
use pve_agent.Base.{if◌then◌else◌, Text, codes, text_eq, has_char, Bool, ◌||◌, List, [], ◌∷◌, ◌++◌}

-- `headers[name] = value` on headers in the order of insertion.
unfoldable pub set_header : Text → Text → List (Text × Text) → List (Text × Text)
unfolding text_eq
set_header name value [] = (name, value) ∷ []
set_header name value ((key, old) ∷ headers) =
    let rest = set_header name value headers in
    if text_eq key name then (key, value) ∷ headers else (key, old) ∷ rest

-- `Object.assign(headers, given)`.
unfoldable pub assign_headers : List (Text × Text) → List (Text × Text) → List (Text × Text)
unfolding set_header
assign_headers headers [] = headers
assign_headers headers ((name, value) ∷ given) =
    assign_headers (set_header name value headers) given

unfoldable pub append_query : Text → Text → Text
append_query path [] = path
append_query path (c ∷ query) = path ++ ((if has_char b'?' path then b'&' else b'?') ∷ c ∷ query)

abbrev pub is_get : Text → Bool
is_get method = text_eq method (codes "GET")

-- GET and DELETE put their parameters in the query string.
abbrev pub in_query : Text → Bool
in_query method = is_get method || text_eq method (codes "DELETE")

abbrev pub accept_header : List (Text × Text)
accept_header = (codes "Accept", codes "application/json") ∷ []

abbrev pub form_type : Text × Text
form_type = (codes "Content-Type", codes "application/x-www-form-urlencoded")
