-- ===== src/Db/Safety.antt =====
-- How the calls of the database end.
use cs.Prelude.{
  ap, ◌∙◌, ◌≢◌, ◌≡◌, refl, true, List, [], ◌∷◌, some, inl, inr, Text, drop, length, ◌-◌, arith,
}
use cs.Handler.Markdown.Laws.{get_ten_markdowns_lem}
use cs.Db.Client.{Mongo}
use cs.Db.Storing.{posts_of, IsConnected, then-returned}
use cs.Db.{
  Ending, returned, thrown, undefined, World, Action, ◌>>◌, returns, create_pool, read_all,
  store_submission, read_posts, db_handler, insert_markdown, insert, get_client_from_pool,
  db_helper, get_ten_markdowns,
}

module _ (mongo : Mongo) where
  -- A call that keeps a pool that stands, and is not undefined.
  IsSafe : {A : Type 0} → Action mongo A → Type 0
  IsSafe {A} m =
      (w : World mongo)
      → ((m w).0 ≢ undefined)
        × ((pool : mongo.Pool) → w.m_client_pool ≡ some pool → (m w).1.m_client_pool ≡ some pool)

  read_posts-IsSafe : (uri : Text) → IsSafe (read_posts mongo uri)
  unfolding IsSafe read_posts db_handler create_pool get_client_from_pool get_ten_markdowns
      db_helper
  read_posts-IsSafe uri w = (ground arith, λ pool c. ground (arith, c))

  store_submission-IsSafe : (uri md : Text) → IsSafe (store_submission mongo uri md)
  unfolding IsSafe store_submission db_handler create_pool insert_markdown insert
      get_client_from_pool
  store_submission-IsSafe uri md w = (ground arith, λ pool c. ground (arith, c))

  -- What a handler asks of the database.
  pub data Call : Type 0 where
    submission : (md : Text) → Call
    listing : Call

  -- The calls of handlers, one behind the other. Whatever a call returns or throws, the next one goes
  -- on; undefined behaviour ends all.
  abbrev go_on : {A : Type 0} → Ending mongo.Exception A → Ending mongo.Exception (Unit {0})
  go_on undefined = undefined
  go_on ending = returned tt

  abbrev serve : Text → Call → Action mongo (Unit {0})
  serve uri (submission md) w =
      let (ending, w') = store_submission mongo uri md w in (go_on ending, w')
  serve uri listing w = let (ending, w') = read_posts mongo uri w in (go_on ending, w')

  abbrev pub serve_all : Text → List Call → Action mongo (Unit {0})
  serve_all uri [] = returns mongo tt
  serve_all uri (c ∷ cs) = ◌>>◌ mongo (serve uri c) (serve_all uri cs)

  go_on-defined :
      {A : Type 0} (ending : Ending mongo.Exception A)
      → ending ≢ undefined
      → go_on ending ≡ returned tt
  go_on-defined (returned a) h = refl
  go_on-defined (thrown e) h = refl
  go_on-defined undefined h = absurd (h refl)

  serve-IsSafe :
      (uri : Text) (c : Call) (w : World mongo)
      → ((serve uri c w).0 ≡ returned tt)
        × ((pool : mongo.Pool)
            → w.m_client_pool ≡ some pool
            → (serve uri c w).1.m_client_pool ≡ some pool)
  unfolding IsSafe
  serve-IsSafe uri (submission md) w =
      let (defined, kept) = store_submission-IsSafe uri md w in (go_on-defined _ defined, kept)
  serve-IsSafe uri listing w =
      let (defined, kept) = read_posts-IsSafe uri w in (go_on-defined _ defined, kept)

  -- However many handlers store and read posts, and however their calls end, none of them reads
  -- through a null pool, and a pool that stands is never replaced.
  pub serve_all-IsSafe :
      (uri : Text) (cs : List Call) (w : World mongo)
      → ((serve_all uri cs w).0 ≡ returned tt)
        × ((pool : mongo.Pool)
            → w.m_client_pool ≡ some pool
            → (serve_all uri cs w).1.m_client_pool ≡ some pool)
  serve_all-IsSafe uri [] w = (refl, λ pool c. c)
  serve_all-IsSafe uri (call ∷ cs) w =
      let (defined, kept) = serve-IsSafe uri call w in
      let (rest, keeps) = serve_all-IsSafe uri cs (serve uri call w).1 in
      let step : serve_all uri (call ∷ cs) w ≡ serve_all uri cs (serve uri call w).1 =
        then-returned mongo (serve uri call) (serve_all uri cs) w (serve uri call w).1
          (ap (λ ending. (ending, (serve uri call w).1)) defined) in
      (
        ap (λ r. r.0) step ∙ rest,
        λ pool c. ap (λ r. r.1.m_client_pool) step ∙ keeps pool (kept pool c),
      )

  -- A reading that an exception of the server ends shows the last ten of the posts read before it, as
  -- if they were all.
  pub read_posts-partial :
      (uri : Text) (pool : mongo.Pool) (w : World mongo) (docs : List mongo.Document)
      (e : mongo.Exception) (mds : List Text)
      → IsConnected mongo uri pool w.m_client_pool
      → mongo.find (posts_of mongo pool) w.store ≡ (docs, some e)
      → mongo.is_operation e ≡ true
      → read_all mongo docs (some e) ≡ (mds, some e)
      → (read_posts mongo uri w).0 ≡ returned (drop (length mds - 10) mds)
  unfolding read_posts db_handler create_pool get_client_from_pool get_ten_markdowns db_helper
  read_posts-partial uri pool w docs e mds connected found o fields = elim connected [
    | inl c ↦ ground (arith, c, found, fields, o, get_ten_markdowns_lem mds)
    | inr (c, m) ↦ ground (arith, c, m, found, fields, o, get_ten_markdowns_lem mds)
  ]
