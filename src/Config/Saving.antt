-- ===== src/Config/Saving.antt =====
-- SaveEditableFile (internal/config/editor.go): an edit is merged into the document in the file, and
-- the document takes the file's place. JSON is an argument, a JSON object is the map that Go makes
-- of it, and what the operating system answers comes as an argument as well.
use any_ns.Base.{suc, List, [], ◌∷◌, ◌++◌, Bool, Option, none, some, Text, txt, ◌=t◌, if◌then◌else◌}
use any_ns.Base.Int.{ℤ, pos, negsuc}
use any_ns.Base.Dict.{Dict, lookup, insert}
use any_ns.Base.Number.{itoa}
use any_ns.Config.Editor.{EditablePlugin, EditableHoneypot, EditablePowerDns, EditableCertificates}

-- A `json.RawMessage`: an object, a list, a text or another value by its text.
mutual
  pub data Raw : Type 0 where
    object : Members → Raw
    array : Elements → Raw
    string : Text → Raw
    literal : Text → Raw

  pub data Members : Type 0 where
    no_member : Members
    member : Text → Raw → Members → Members

  pub data Elements : Type 0 where
    no_element : Elements
    element : Raw → Elements → Elements

-- A `map[string]json.RawMessage`, with one member for each key.
abbrev pub Document : Type 0
Document = Members

unfoldable pub get_member : Text → Document → Option Raw
get_member k no_member = none
get_member k (member j v m) = if j =t k then some v else get_member k m

unfoldable pub set_member : Text → Raw → Document → Document
set_member k v no_member = member k v no_member
set_member k v (member j w m) = if j =t k then member j v m else member j w (set_member k v m)

-- Decoding into a map, which stays nil where the value is no object.
unfoldable pub as_map : Option Raw → Option Document
as_map (some (object m)) = some m
as_map v = none

maps_of : Elements → List (Option Document)
maps_of no_element = []
maps_of (element v es) = as_map (some v) ∷ maps_of es

-- Decoding into a list of maps.
unfoldable pub as_maps : Option Raw → List (Option Document)
unfolding maps_of
as_maps (some (array es)) = maps_of es
as_maps v = []

abbrev as_text : Option Raw → Text
as_text (some (string t)) = t
as_text v = []

abbrev int_text : ℤ → Text
int_text (pos n) = itoa n
int_text (negsuc n) = txt "-" ++ itoa (suc n)

-- `fmt.Sprintf("%ds", n)`
abbrev pub seconds_text : ℤ → Raw
seconds_text n = string (int_text n ++ txt "s")

abbrev pub bool_raw : Bool → Raw
bool_raw b = literal (if b then txt "true" else txt "false")

abbrev pub int_raw : ℤ → Raw
int_raw n = literal (int_text n)

-- A map, or an empty one for nil.
abbrev pub or_fresh : Option Document → Document
or_fresh none = no_member
or_fresh (some d) = d

-- The loop over `values`, in one of its orders.
unfoldable pub set_all : List (Text × Raw) → Document → Document
set_all [] d = d
set_all ((k, v) ∷ kvs) d = set_all kvs (set_member k v d)

abbrev pub plugin_values : EditablePlugin → List (Text × Raw)
plugin_values p =
    (txt "name", string p.name)
    ∷ (txt "enabled", bool_raw p.enabled)
    ∷ (txt "backend_type", string p.backend_type)
    ∷ (txt "backend_url", string p.backend_url)
    ∷ (txt "request_timeout", seconds_text p.request_timeout_seconds)
    ∷ []

abbrev pub honeypot_values : EditableHoneypot → List (Text × Raw)
honeypot_values h =
    (txt "url", string h.url)
    ∷ (txt "failed_queue_path", string h.failed_queue_path)
    ∷ (txt "failed_queue_max_entries", int_raw h.failed_queue_max_entries)
    ∷ (txt "retry_interval", seconds_text h.retry_interval_seconds)
    ∷ (txt "max_attempts", int_raw h.max_attempts)
    ∷ (txt "request_timeout", seconds_text h.request_timeout_seconds)
    ∷ []

abbrev pub power_dns_values : EditablePowerDns → List (Text × Raw)
power_dns_values d =
    (txt "authoritative_url", string d.authoritative_url)
    ∷ (txt "recursor_url", string d.recursor_url)
    ∷ (txt "server_id", string d.server_id)
    ∷ (txt "request_timeout", seconds_text d.request_timeout_seconds)
    ∷ []

abbrev pub certificates_values : EditableCertificates → List (Text × Raw)
certificates_values c =
    (txt "enabled", bool_raw c.enabled)
    ∷ (txt "issuer_mode", string c.issuer_mode)
    ∷ (txt "directory_url", string c.directory_url)
    ∷ (txt "account_email", string c.account_email)
    ∷ (txt "accept_tos", bool_raw c.accept_tos)
    ∷ (txt "storage_dir", string c.storage_dir)
    ∷ (txt "request_timeout", seconds_text c.request_timeout_seconds)
    ∷ (txt "dns_propagation_timeout", seconds_text c.dns_propagation_timeout_seconds)
    ∷ (txt "dns_poll_interval", seconds_text c.dns_poll_interval_seconds)
    ∷ (txt "max_attempts", int_raw c.max_attempts)
    ∷ (txt "renew_before_days", int_raw c.renew_before_days)
    ∷ (txt "crl_distribution_url", string c.crl_distribution_url)
    ∷ []

-- `mergeHoneypot` and `mergePowerDNS`: values over those of the object of a key.
unfoldable pub merge_values : Text → List (Text × Raw) → Document → Document
merge_values key values document =
    set_member key (object (set_all values (or_fresh (as_map (get_member key document))))) document

-- The maps of the plugins in the file, by their names; the last one of a name counts.
abbrev name_of : Option Document → Text
name_of none = []
name_of (some d) = as_text (get_member (txt "name") d)

unfoldable pub by_names : List (Option Document) → Dict (Option Document) → Dict (Option Document)
by_names [] m = m
by_names (p ∷ ps) m = by_names ps (insert (name_of p) p m)

abbrev pub joined : Option (Option Document) → Option Document
joined none = none
joined (some d) = d

-- An edited plugin writes into the map of its name; a name without one has a map of its own.
abbrev pub put_over :
    EditablePlugin → Option Document → Dict (Option Document) → Dict (Option Document)
put_over p none m = m
put_over p (some d) m = insert p.name (some (set_all (plugin_values p) d)) m

unfoldable pub write_one : EditablePlugin → Dict (Option Document) → Dict (Option Document)
write_one p m = put_over p (joined (lookup p.name m)) m

unfoldable pub write_shared : List EditablePlugin → Dict (Option Document) → Dict (Option Document)
write_shared [] m = m
write_shared (p ∷ ps) m = write_shared ps (write_one p m)

-- The map of an edited plugin once all are written.
abbrev pub or_own : EditablePlugin → Option Document → Document
or_own p none = set_all (plugin_values p) no_member
or_own p (some d) = d

abbrev pub written : Dict (Option Document) → EditablePlugin → Document
written m p = or_own p (joined (lookup p.name m))

unfoldable pub array_of : Dict (Option Document) → List EditablePlugin → Elements
array_of m [] = no_element
array_of m (p ∷ ps) = element (object (written m p)) (array_of m ps)

unfoldable pub merge_plugins : List EditablePlugin → Document → Document
unfolding array_of write_shared by_names
merge_plugins ps document =
    let shared = write_shared ps (by_names (as_maps (get_member (txt "plugins") document)) []) in
    set_member (txt "plugins") (array (array_of shared ps)) document
