-- ===== src/Loading/Served.antt =====
-- The schema that is served, after any events of the watcher of src/state/mod.rs.
use subgraph_mock.Base.{
  ok-injective, String, ◌≡◌, refl, sym, ap, ◌∙◌, List, [], ◌∷◌, Outcome, ok, err, panic,
  out_of_fuel, ◌>>=◌, >>=-eq-ok,
}
use subgraph_mock.Schema.{Schema, FederatedSchema, sdl}
use subgraph_mock.Federation.{Definition, patch_ast, patch_schema}
use subgraph_mock.Loading.{
  Compiler, Files, WatchEvent, modify, other_event, watch_error, parse_string, parse, kept_on_error,
  update_schema, on_event,
}

abbrev made : String → Schema → Outcome FederatedSchema
made source valid = ok (record { valid = valid; source = source })

module _ (compiler : Compiler) where
  -- A schema that was loaded from a text: the text is kept, and its patched document is valid.
  pub record IsLoaded (schema : FederatedSchema) : Type 0 where
    pub ast : List Definition
    pub unpatched : Schema
    pub patched : Schema
    pub is_parsed : compiler.parse (sdl schema) ≡ ok ast
    pub is_schema : compiler.to_schema (patch_ast ast).definitions ≡ ok unpatched
    pub is_patched :
        patch_schema compiler.argument_by_name unpatched (patch_ast ast).federation_type
        ≡ ok patched
    pub is_valid : compiler.validate patched ≡ ok schema.valid

  -- `State::new` loads a schema, and then events come, each with the files as they are by then.
  pub data IsServed : FederatedSchema → Type 0 where
    start :
        {schema : FederatedSchema} (files : Files) (path : String)
        → parse compiler files path ≡ ok schema
        → IsServed schema
    event :
        {served schema : FederatedSchema} (files : Files) (e : WatchEvent)
        → IsServed served
        → on_event compiler files e served ≡ ok schema
        → IsServed schema

  IsLoaded-eq : {a b : FederatedSchema} → a ≡ b → IsLoaded a → IsLoaded b
  IsLoaded-eq e h = rw (sym e) h

  parse_string-IsLoaded :
      (source : String) {schema : FederatedSchema}
      → parse_string compiler source ≡ ok schema
      → IsLoaded schema
  unfolding parse_string
  parse_string-IsLoaded source {schema} h =
      let (ast, e, h1) =
        >>=-eq-ok (compiler.parse source)
          (λ ast. compiler.to_schema (patch_ast ast).definitions >>= λ unpatched.
            patch_schema compiler.argument_by_name unpatched (patch_ast ast).federation_type
            >>= λ patched. compiler.validate patched >>= λ valid. made source valid)
          h in
      let (unpatched, e1, h2) =
        >>=-eq-ok (compiler.to_schema (patch_ast ast).definitions)
          (λ unpatched.
            patch_schema compiler.argument_by_name unpatched (patch_ast ast).federation_type
            >>= λ patched. compiler.validate patched >>= λ valid. made source valid)
          h1 in
      let (patched, e2, h3) =
        >>=-eq-ok (patch_schema compiler.argument_by_name unpatched (patch_ast ast).federation_type)
          (λ patched. compiler.validate patched >>= λ valid. made source valid) h2 in
      let (valid, e3, h4) = >>=-eq-ok (compiler.validate patched) (λ valid. made source valid) h3 in
      IsLoaded-eq (ok-injective h4) (record {
        ast = ast;
        unpatched = unpatched;
        patched = patched;
        is_parsed = e;
        is_schema = e1;
        is_patched = e2;
        is_valid = e3;
      })

  -- A schema keeps the text that it was parsed from.
  parse_string-source :
      (source : String) {schema : FederatedSchema}
      → parse_string compiler source ≡ ok schema
      → schema.source ≡ source
  unfolding parse_string
  parse_string-source source h =
      let (ast, _, h1) = >>=-eq-ok (compiler.parse source) _ h in
      let (unpatched, _, h2) = >>=-eq-ok (compiler.to_schema (patch_ast ast).definitions) _ h1 in
      let (patched, _, h3) =
        >>=-eq-ok (patch_schema compiler.argument_by_name unpatched (patch_ast ast).federation_type)
          _ h2 in
      let (valid, _, h4) = >>=-eq-ok (compiler.validate patched) (made source) h3 in
      ap (λ (s : FederatedSchema). s.source) (sym (ok-injective h4))

  -- What is parsed of a file is its text.
  pub parse-source :
      (files : Files) (path : String) {schema : FederatedSchema}
      → parse compiler files path ≡ ok schema
      → files path ≡ ok schema.source
  unfolding parse
  parse-source files path h =
      let (source, read, parsed) = >>=-eq-ok (files path) (parse_string compiler) h in
      read ∙ ap ok (sym (parse_string-source source parsed))

  pub parse-IsLoaded :
      (files : Files) (path : String) {schema : FederatedSchema}
      → parse compiler files path ≡ ok schema
      → IsLoaded schema
  unfolding parse
  parse-IsLoaded files path h =
      let (source, _, loaded) = >>=-eq-ok (files path) (parse_string compiler) h in
      parse_string-IsLoaded source loaded

  kept-IsLoaded :
      (served : FederatedSchema) (result : Outcome FederatedSchema) {schema : FederatedSchema}
      → ((s : FederatedSchema) → result ≡ ok s → IsLoaded s)
      → IsLoaded served
      → kept_on_error compiler served result ≡ ok schema
      → IsLoaded schema
  kept-IsLoaded served (ok s) new old h = IsLoaded-eq (ok-injective h) (new s refl)
  kept-IsLoaded served (err e) new old h = IsLoaded-eq (ok-injective h) old
  kept-IsLoaded served panic new old h = cc
  kept-IsLoaded served out_of_fuel new old h = cc

  pub on_event-IsLoaded :
      (files : Files) (e : WatchEvent) (served : FederatedSchema) {schema : FederatedSchema}
      → IsLoaded served
      → on_event compiler files e served ≡ ok schema
      → IsLoaded schema
  unfolding on_event update_schema
  on_event-IsLoaded files (modify []) served old h = IsLoaded-eq (ok-injective h) old
  on_event-IsLoaded files (modify (path ∷ paths)) served old h =
      kept-IsLoaded served (parse compiler files path) (λ s. parse-IsLoaded files path) old h
  on_event-IsLoaded files other_event served old h = IsLoaded-eq (ok-injective h) old
  on_event-IsLoaded files watch_error served old h = IsLoaded-eq (ok-injective h) old

  -- Whatever files change and whatever is in them, the schema that is served was loaded: it is the
  -- valid result of parsing and patching the text that it gives as its `sdl`. So a reload that
  -- fails leaves a schema that is valid and agrees with its text.
  pub IsServed-IsLoaded : (schema : FederatedSchema) → IsServed schema → IsLoaded schema
  IsServed-IsLoaded schema (start files path h) = parse-IsLoaded files path h
  IsServed-IsLoaded schema (event {served} files e before h) =
      on_event-IsLoaded files e served (IsServed-IsLoaded served before) h
