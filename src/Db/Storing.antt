-- ===== src/Db/Storing.antt =====
-- What the database handler stores and reads back.
use mathlib.Core.List.Permᴰ
use mathlib.Core.List.{Permᴰ}
use cs.Prelude.{
  ◌-◌, ◌≡◌, List, [], ◌∷◌, Option, none, some, inr, ◌⊎◌, Text, codes, length, drop, arith,
}
use cs.Handler.Markdown
use cs.Db.Client.{Mongo}
use cs.Db.{Ending, returned, World, Action, ◌>>◌, read_all, store_submission, read_posts}

module _ (mongo : Mongo) where
  -- A text that goes through a document and its JSON unchanged.
  pub record IsStorable (md : Text) : Type 0 where
    pub json : Text
    pub printed : mongo.to_json (mongo.md_document md) ≡ inr json
    pub parsed : mongo.from_json json ≡ inr (mongo.md_document md)
    pub field : mongo.md_field (mongo.md_document md) ≡ inr md

  -- The collection of the posts.
  abbrev pub posts_of : mongo.Pool → mongo.Collection
  posts_of pool =
      mongo.collection (mongo.database (mongo.acquire pool) (codes "WFH")) (codes "markdown")

  -- A server that answers: what is inserted is found together with what was found before, in an order
  -- that is up to the server.
  abbrev pub IsUp : mongo.Collection → Type 0
  IsUp c =
      (store : mongo.Store) (docs : List mongo.Document) (d : mongo.Document)
      → mongo.find c store ≡ (docs, none)
      → (store' : mongo.Store) × (docs' : List mongo.Document) × (mongo.insert_one c d store
          ≡ (inr tt, store'))
        × (mongo.find c store' ≡ (docs', none))
        × Permᴰ docs' (d ∷ docs)

  -- There is a pool, or none yet and the client makes it.
  abbrev pub IsConnected : Text → mongo.Pool → Option mongo.Pool → Type 0
  IsConnected uri pool p = (p ≡ some pool) ⊎ ((p ≡ none) × (mongo.make_pool uri ≡ inr pool))

  -- The world holds the posts `mds`, and no others.
  pub record Holds (uri : Text) (pool : mongo.Pool) (mds : List Text) (w : World mongo)
      : Type 0 where
    pub connected : IsConnected uri pool w.m_client_pool
    pub docs : List mongo.Document
    pub found : mongo.find (posts_of pool) w.store ≡ (docs, none)
    pub fields : read_all mongo docs none ≡ (mds, none)

  -- The documents that stand in a list are read one by one.
  record Parted (d : mongo.Document) (docs : List mongo.Document) (mds : List Text) : Type 0 where
    head : Text
    tail : List Text
    field : mongo.md_field d ≡ inr head
    fields : read_all mongo docs none ≡ (tail, none)
    whole : head ∷ tail ≡ mds

  -- Documents in another order are read as the same texts in another order.
  record Reordered (docs : List mongo.Document) (mds : List Text) : Type 0 where
    texts : List Text
    fields : read_all mongo docs none ≡ (texts, none)
    same : Permᴰ texts mds

  -- The submissions of a list, in turn, and then the form.
  abbrev pub submit_and_read : Text → List Text → Action mongo (List Text)
  submit_and_read uri [] = read_posts mongo uri
  submit_and_read uri (md ∷ mds) =
      ◌>>◌ mongo (store_submission mongo uri md) (submit_and_read uri mds)

  pub then-returned :
      {A B : Type 0} {a : A} (m : Action mongo A) (n : Action mongo B) (w w' : World mongo)
      → m w ≡ (returned a, w')
      → ◌>>◌ mongo m n w ≡ n w'
  then-returned m n w w' e = ground (arith, e)

  -- What is shown: the last ten of the posts, in some order of them.
  abbrev pub Shows : List Text → Ending mongo.Exception (List Text) → Type 0
  Shows posts r =
      (stored : List Text) × Permᴰ stored posts × (r ≡ returned (drop (length stored - 10) stored))
