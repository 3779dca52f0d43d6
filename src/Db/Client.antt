-- ===== src/Db/Client.antt =====
-- What the program uses of the MongoDB client (mongocxx and bsoncxx), which is not part of the
-- repository: a parameter of the model.
use cs.Prelude.{Bool, List, Option, ◌⊎◌, Text}

pub record Mongo : Type 1 where
  -- Exceptions, and the tests of the `catch` clauses on `bsoncxx::exception`,
  -- `mongocxx::bulk_write_exception` and `mongocxx::operation_exception`.
  pub Exception : Type 0
  pub is_bson : Exception → Bool
  pub is_bulk_write : Exception → Bool
  pub is_operation : Exception → Bool
  -- What the database server holds.
  pub Store : Type 0
  pub Pool : Type 0
  pub Client : Type 0
  pub Database : Type 0
  pub Collection : Type 0
  pub Document : Type 0
  -- `mongocxx::pool { mongocxx::uri { uri } }`
  pub make_pool : Text → Exception ⊎ Pool
  -- `*pool.acquire()`
  pub acquire : Pool → Client
  -- `client[name]` and `database[name]`
  pub database : Client → Text → Database
  pub collection : Database → Text → Collection
  -- `document{} << "md" << md`
  pub md_document : Text → Document
  -- `bsoncxx::to_json` and `bsoncxx::from_json`
  pub to_json : Document → Exception ⊎ Text
  pub from_json : Text → Exception ⊎ Document
  -- `doc["md"].get_utf8().value.to_string()`
  pub md_field : Document → Exception ⊎ Text
  -- `collection.insert_one(document)`
  pub insert_one : Collection → Document → Store → (Exception ⊎ Unit {0}) × Store
  -- `collection.find({})`: the documents that its cursor passes, and the exception that ends it.
  pub find : Collection → Store → List Document × Option Exception
