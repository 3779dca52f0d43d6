-- ===== src/Tests/Storing.antt =====
-- The database handler.
use mathlib.Core.List.Permᴰ
use cs.Prelude.{
  ◌≡◌, refl, ◌-◌, true, List, [], ◌∷◌, Option, none, some, inr, Text, codes, length, drop,
  replicate,
}
use cs.Db.Client.{Mongo}
use cs.Db.{returned, World, read_all, read_posts}
use cs.Db.Safety.{submission, listing, serve_all, serve_all-IsSafe, read_posts-partial}

-- A server that keeps the documents, as they are, in one list, the newest first. Its readings end with `end`.
abbrev sample_mongo : Option (Unit {0}) → Mongo
sample_mongo end = record {
  Exception = Unit {0};
  is_bson = λ e. true;
  is_bulk_write = λ e. true;
  is_operation = λ e. true;
  Store = List Text;
  Pool = Text;
  Client = Text;
  Database = Text;
  Collection = Text;
  Document = Text;
  make_pool = λ uri. inr uri;
  acquire = λ pool. pool;
  database = λ client name. name;
  collection = λ database name. name;
  md_document = λ md. md;
  to_json = λ d. inr d;
  from_json = λ json. inr json;
  md_field = λ d. inr d;
  insert_one = λ c d store. (inr tt, d ∷ store);
  find = λ c store. (store, end);
}

abbrev sample_uri : Text
sample_uri = codes "mongodb://db"

abbrev sample_world : (end : Option (Unit {0})) → World (sample_mongo end)
sample_world end = record { m_client_pool = none; store = replicate 10 (codes "old") }

abbrev two_posts : List Text
two_posts = codes "first" ∷ codes "second" ∷ []

serve_all-IsSafe_example :
    (serve_all
        (sample_mongo (some tt))
        sample_uri
        (submission (codes "a") ∷ listing ∷ [])
        (record { m_client_pool = some (codes "made"); store = [] })).0
      ≡ returned tt
    × ((pool : Text)
        → some (codes "made") ≡ some pool
        → (serve_all
            (sample_mongo (some tt))
            sample_uri
            (submission (codes "a") ∷ listing ∷ [])
            (record { m_client_pool = some (codes "made"); store = [] })).1.m_client_pool
          ≡ some pool)
serve_all-IsSafe_example =
    serve_all-IsSafe (sample_mongo (some tt)) sample_uri (submission (codes "a") ∷ listing ∷ [])
      (record { m_client_pool = some (codes "made"); store = [] })

read_posts-partial_example :
    (read_posts (sample_mongo (some tt)) sample_uri (sample_world (some tt))).0
    ≡ returned (drop (length (replicate 10 (codes "old")) - 10) (replicate 10 (codes "old")))
read_posts-partial_example =
    read_posts-partial (sample_mongo (some tt)) sample_uri sample_uri (sample_world (some tt))
      (replicate 10 (codes "old")) tt (replicate 10 (codes "old")) (inr (refl, refl)) refl refl
      (unfold read_all in refl)
