-- ===== src/Db.antt =====
-- `db_handler` and `db_instance` (src/db, include/db), on the MongoDB client. Calls of the logger are
-- left out.
pub mod Client
pub mod Safety
pub mod Storing
use cs.Prelude.{
  Bool, ◌||◌, List, [], ◌∷◌, Option, none, some, ◌⊎◌, inl, inr, if◌then◌else◌, Text, codes,
}
use cs.Prelude.Int.{ℤ, pos, negsuc}
use cs.Handler.Markdown
use cs.Db.Client.{Mongo}

-- How a call ends.
pub data Ending (E A : Type 0) : Type 0 where
  returned : A → Ending E A
  thrown : E → Ending E A
  undefined : Ending E A

module _ (mongo : Mongo) where
  -- `db_instance`, which is one object, and the database server.
  pub record World : Type 0 where
    pub m_client_pool : Option mongo.Pool
    pub store : mongo.Store

  -- A call, which may change the world.
  abbrev pub Action : Type 0 → Type 0
  Action A = World → Ending mongo.Exception A × World

  abbrev pub returns : {A : Type 0} → A → Action A
  returns a w = (returned a, w)

  abbrev pub ◌>>=◌ : {A B : Type 0} → Action A → (A → Action B) → Action B
  ◌>>=◌ m f w =
      let (ending, w') = m w in
      elim ending [ returned a ↦ f a w' | thrown e ↦ (thrown e, w') | undefined ↦ (undefined, w') ]

  abbrev pub ◌>>◌ : {A B : Type 0} → Action A → Action B → Action B
  ◌>>◌ m n = ◌>>=◌ m (λ a. n)

  -- A value of the client library, or its exception.
  abbrev pub lift : {A : Type 0} → mongo.Exception ⊎ A → Action A
  lift (inl e) w = (thrown e, w)
  lift (inr a) w = (returned a, w)

  -- `db_instance::createPool`
  unfoldable pub create_pool : Text → Action (Unit {0})
  create_pool uri_ w = elim w.m_client_pool [
    | none ↦ elim (mongo.make_pool uri_) [
      | inl e ↦ (thrown e, w)
      | inr pool ↦ (returned tt, record w { m_client_pool = some pool })
    ]
    | some pool ↦ (returned tt, w)
  ]

  -- `db_instance::getClientFromPool`, which reads through `m_client_pool`.
  unfoldable pub get_client_from_pool : Action mongo.Client
  get_client_from_pool w = elim w.m_client_pool [
    | none ↦ (undefined, w)
    | some pool ↦ (returned (mongo.acquire pool), w)
  ]

  pub record DbHandler : Type 0 where
    pub m_db_name : Text
    pub m_collection_name : Text

  -- `db_handler::db_handler`. The first argument is the URI in the source, which holds a password.
  unfoldable pub db_handler : Text → Text → Text → Action DbHandler
  unfolding create_pool
  db_handler uri db_name collection_name = do
    create_pool uri
    returns (record { m_db_name = db_name; m_collection_name = collection_name })

  -- `m_db = m_client[m_db_name]; m_collection = m_db[m_collection_name];` Both members are set before
  -- each use.
  abbrev pub collection_of : DbHandler → mongo.Client → mongo.Collection
  collection_of h m_client =
      mongo.collection (mongo.database m_client h.m_db_name) h.m_collection_name

  -- The loop over the cursor in `DBHelper`: `ret`, and the exception that ends it.
  unfoldable pub read_all :
      List mongo.Document → Option mongo.Exception → List Text × Option mongo.Exception
  read_all [] end = ([], end)
  read_all (doc ∷ docs) end = elim (mongo.md_field doc) [
    | inl e ↦ ([], some e)
    | inr md ↦ let (ret, ended) = read_all docs end in (md ∷ ret, ended)
  ]

  -- The `catch` of `DBHelper`.
  abbrev pub caught_read : List Text × Option mongo.Exception → Action (List Text)
  caught_read (ret, none) w = (returned ret, w)
  caught_read (ret, some e) w = if mongo.is_operation e then (returned ret, w) else (thrown e, w)

  -- `db_handler::DBHelper`
  unfoldable pub db_helper : DbHandler → mongo.Client → Action (List Text)
  unfolding read_all
  db_helper h m_client w =
      let (docs, end) = mongo.find (collection_of h m_client) w.store in
      caught_read (read_all docs end) w

  -- The `catch` clauses of `insert`.
  abbrev caught_write : mongo.Exception → Action ℤ
  caught_write e w =
      if mongo.is_bson e || mongo.is_bulk_write e then (returned (negsuc 0), w) else (thrown e, w)

  abbrev pub write_document : mongo.Collection → mongo.Document → Action ℤ
  write_document c doc_value w =
      let (result, store') = mongo.insert_one c doc_value w.store in
      let w' : World = record w { store = store' } in
      elim result [ inl e ↦ caught_write e w' | inr _ ↦ (returned (pos 0), w') ]

  -- `db_handler::insert`
  unfoldable pub insert : DbHandler → Text → mongo.Client → Action ℤ
  insert h jsonDoc_ m_client w = elim (mongo.from_json jsonDoc_) [
    | inl e ↦ caught_write e w
    | inr doc_value ↦ write_document (collection_of h m_client) doc_value w
  ]

  -- `db_handler::insertMarkdown`
  unfoldable pub insert_markdown : DbHandler → Text → Action ℤ
  unfolding get_client_from_pool insert
  insert_markdown h md = do
    jsonDoc_ ← lift (mongo.to_json (mongo.md_document md))
    client ← get_client_from_pool
    insert h jsonDoc_ client

  -- `db_handler::getTenMarkdowns`
  unfoldable pub get_ten_markdowns : DbHandler → Action (List Text)
  unfolding get_client_from_pool db_helper
  get_ten_markdowns h = do
    client ← get_client_from_pool
    mds ← db_helper h client
    returns (Markdown.get_ten_markdowns mds)

  -- The database in `MarkdownHandler::viewMarkdown`, which does not read the result.
  unfoldable pub store_submission : Text → Text → Action (Unit {0})
  unfolding db_handler insert_markdown
  store_submission uri cleaned_input = do
    db ← db_handler uri (codes "WFH") (codes "markdown")
    insert_markdown db cleaned_input
    returns tt

  -- The database in `MarkdownHandler::createForm`.
  unfoldable pub read_posts : Text → Action (List Text)
  unfolding db_handler get_ten_markdowns
  read_posts uri = do db ← db_handler uri (codes "WFH") (codes "markdown"); get_ten_markdowns db
