-- ===== src/Adapter/Protocol/Metadata.antt =====
-- The metadata that makes a message one of the stateless protocol.
use rust_mcp.Prelude.{
  ◌≡◌, refl, ◌∙◌, inl, inr, true, false, ◌&&◌, [], Option, none, some, arith, if◌then◌else◌,
  unwrap_or, Bool-cases, Option-cases,
}
use rust_mcp.Text.{Text, codes, text_eq}
use rust_mcp.Json.{Json, IsJson}
use rust_mcp.Adapter.Protocol.{
  latest_mcp_protocol_version, meta_key, meta_protocol_version, meta_client_info,
  meta_client_capabilities, request_meta_protocol_version, or_insert, stateless_meta, at_entry,
  insert_stateless_request_meta,
}

module _ {V : Type 0} (json : Json V) (lawful : IsJson json) where
  -- The object at a key, an empty one if there is none.
  abbrev pub object_at : Text → V → V
  object_at key m = unwrap_or (json.object []) (json.get key m)

  or_insert-get :
      (j k : Text) (v m : V)
      → json.is_object m ≡ true
      → text_eq k j ≡ false
      → json.get j (or_insert json k v (json.get k m) m) ≡ json.get j m
  unfolding or_insert
  or_insert-get j k v m object differ = elim (Option-cases (json.get k m)) [
    | inl missing ↦ rw missing (rw (lawful.get-set j k v m object, differ))
    | inr (w, found) ↦ rw found
  ]

  or_insert-is_object :
      (k : Text) (v m : V) (found : Option V)
      → json.is_object (or_insert json k v found m) ≡ json.is_object m
  unfolding or_insert
  or_insert-is_object k v m none = lawful.set-is_object k v m
  or_insert-is_object k v m (some w) = refl

  at_entry-get_other :
      (j key : Text) (f : V → V) (m : V)
      → text_eq key j ≡ false
      → json.get j (at_entry json key f m) ≡ json.get j m
  unfolding at_entry
  at_entry-get_other j key f m differ =
      elim (Bool-cases (json.is_object m && json.is_object (object_at key m))) [
        | inl both ↦ rw both (ground (arith, lawful.get-set j key (f (object_at key m)) m))
        | inr neither ↦ rw neither
      ]

  at_entry-get_self :
      (key : Text) (f : V → V) (m : V)
      → json.is_object m ≡ true
      → json.is_object (object_at key m) ≡ true
      → text_eq key key ≡ true
      → json.get key (at_entry json key f m) ≡ some (f (object_at key m))
  unfolding at_entry
  at_entry-get_self key f m object value same =
      rw (object, value) (rw (lawful.get-set key key (f (object_at key m)) m object, same))

  stateless_meta-get :
      (client_name client_version j : Text) (meta : V)
      → json.is_object meta ≡ true
      → text_eq meta_client_capabilities j ≡ false
      → text_eq meta_client_info j ≡ false
      → json.get j (stateless_meta json client_name client_version meta) ≡ (
          if text_eq meta_protocol_version j
          then some (json.string latest_mcp_protocol_version)
          else json.get j meta)
  unfolding stateless_meta
  stateless_meta-get client_name client_version j meta object capabilities info =
      let versioned =
        json.set meta_protocol_version (json.string latest_mcp_protocol_version) meta in
      let versioned_object =
        lawful.set-is_object meta_protocol_version (json.string latest_mcp_protocol_version) meta
        ∙ object in
      or_insert-get j meta_client_info _ _
        (or_insert-is_object meta_client_capabilities (json.object []) versioned _
          ∙ versioned_object)
        info
      ∙ or_insert-get j meta_client_capabilities (json.object []) versioned versioned_object
          capabilities
      ∙ lawful.get-set j meta_protocol_version _ meta object

  -- Messages that can carry metadata: an object whose `params` and `_meta`, if there, are objects.
  pub record IsRoomy (message : V) : Type 0 where
    pub message_object : json.is_object message ≡ true
    pub params_object : json.is_object (object_at (codes "params") message) ≡ true
    pub meta_object :
        json.is_object (object_at meta_key (object_at (codes "params") message)) ≡ true

  module _ (client_name client_version : Text) (message : V) (roomy : IsRoomy message) where
    abbrev inserted : V
    inserted = insert_stateless_request_meta json client_name client_version message

    abbrev add_meta : V → V
    add_meta = at_entry json meta_key (stateless_meta json client_name client_version)

    abbrev params : V
    params = object_at (codes "params") message

    abbrev meta : V
    meta = object_at meta_key params

    insert-params :
        json.get (codes "params") inserted
        ≡ some (at_entry json meta_key (stateless_meta json client_name client_version) params)
    unfolding insert_stateless_request_meta text_eq
    insert-params =
        at_entry-get_self (codes "params") add_meta message roomy.message_object roomy.params_object
          refl

    insert-meta :
        json.get meta_key
          (at_entry json meta_key (stateless_meta json client_name client_version) params)
        ≡ some (stateless_meta json client_name client_version meta)
    unfolding text_eq
    insert-meta =
        at_entry-get_self meta_key (stateless_meta json client_name client_version) params
          roomy.params_object roomy.meta_object refl

    -- The members of the message besides `params` stay.
    pub insert-get_other :
        (key : Text)
        → text_eq (codes "params") key ≡ false
        → json.get key inserted ≡ json.get key message
    unfolding insert_stateless_request_meta
    insert-get_other key differ = at_entry-get_other key (codes "params") add_meta message differ

    -- The members of `params` besides `_meta` stay.
    pub insert-params_other :
        (key : Text)
        → text_eq meta_key key ≡ false
        → json.get key (object_at (codes "params") inserted) ≡ json.get key params
    insert-params_other key differ = rw insert-params (
        at_entry-get_other key meta_key (stateless_meta json client_name client_version) params
          differ)

    -- The metadata that was there stays, but for the version.
    pub insert-meta_get :
        (key : Text)
        → text_eq meta_client_capabilities key ≡ false
        → text_eq meta_client_info key ≡ false
        → json.get key (object_at meta_key (object_at (codes "params") inserted)) ≡ (
            if text_eq meta_protocol_version key
            then some (json.string latest_mcp_protocol_version)
            else json.get key meta)
    insert-meta_get key capabilities info = rw insert-params (
        rw insert-meta (
          stateless_meta-get client_name client_version key meta roomy.meta_object capabilities
            info))

    pub request_meta_protocol_version-insert :
        request_meta_protocol_version json inserted ≡ some latest_mcp_protocol_version
    unfolding request_meta_protocol_version text_eq
    request_meta_protocol_version-insert =
        let version =
          stateless_meta-get client_name client_version meta_protocol_version meta roomy.meta_object
            refl refl in
        rw insert-params
          (rw insert-meta (rw version (lawful.as_str-string latest_mcp_protocol_version)))
