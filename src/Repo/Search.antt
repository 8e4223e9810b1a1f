-- ===== src/Repo/Search.antt =====
-- What `ChunkRepository.Search` of internal/database/repo/chunks.go answers.
use mathlib.Core.Path.{subst}
use text.Mathlib.Text.{◌==◌ as str_eq}
use text.Mathlib.TextEquality.{eq_iff}
use learn_rag.Common.{
  ℕ, suc, ◌≤◌, ◌≡◌, ◌⊎◌, inl, inr, refl, sym, ap, All-mono, ◌∙◌, arith, String, Bool, true, false,
  not, Option, none, some, List, [], ◌∷◌, All, length, take, length-take, is_some, if◌then◌else◌,
}
use learn_rag.Common.Text.{Text}
use learn_rag.Model.{Chunk, Video, VideoStatus, Vector}
use learn_rag.Database.{Db, World}
use learn_rag.Database.Outcome.{Outcome, Quiet, weaken, exec-Outcome, with_tenant_tx-Outcome}
use learn_rag.Database.Rows.{All-order_by, All-take, select_one-passes}
use learn_rag.Database.Table.{select_one, order_by}
use learn_rag.Queries.Contents.{hits, is_searched, search_chunks, with_title}
use learn_rag.Queries.Videos.{in_segment, status_text}
use learn_rag.Repo.Contents.{search}
use learn_rag.Repo.Videos.{optional_name}

-- A row of a table.
abbrev pub Among : {R : Type 0} → R → List R → Type 0
Among r [] = ⊥
Among r (x ∷ xs) = (x ≡ r) ⊎ Among r xs

-- A chunk of the tenant, with the title of its video, which is completed, not deleted, and in the segment if one is asked for.
pub record IsHit (w : World) (db : Db) (tenant_id : String) (segment : Option Text)
    (hit : Chunk × Text) : Type 0 where
  pub stored : Among hit.0 db.chunks
  pub own : hit.0.tenant_id ≡ tenant_id
  pub video : Video
  pub title : hit.1 ≡ video.title
  pub video_id : video.id ≡ hit.0.video_id
  pub completed : video.status ≡ VideoStatus.completed
  pub live : video.deleted_at ≡ none
  pub listed : in_segment w db tenant_id segment video ≡ true

module _ (w : World) (db : Db) (tenant_id : String) (segment : Option Text) where
  searched-IsHit :
      (c : Chunk) (v : Video)
      → Among c db.chunks
      → c.tenant_id ≡ tenant_id
      → is_searched w db tenant_id segment c v ≡ true
      → IsHit w db tenant_id segment (c, v.title)
  searched-IsHit c v stored own h = record {
    stored = stored;
    own = own;
    video = v;
    title = refl;
    video_id = ground (arith, eq_iff v.id c.video_id);
    completed = by_status v.status (ground arith);
    live = by_time v.deleted_at (ground arith);
    listed = ground arith;
  }
    where
      by_status :
          (s : VideoStatus) → str_eq (status_text s) "completed" ≡ true → s ≡ VideoStatus.completed
      by_status VideoStatus.processing h = cc
      by_status VideoStatus.completed h = refl
      by_status VideoStatus.failed h = cc

      by_time : (t : Option ℕ) → not (is_some t) ≡ true → t ≡ none
      by_time none h = refl
      by_time (some t) h = cc

  hits-IsHit :
      (chunks : List Chunk)
      → ((c : Chunk) → Among c chunks → Among c db.chunks)
      → All (IsHit w db tenant_id segment) (hits w db tenant_id segment chunks)
  unfolding hits
  hits-IsHit [] stored = tt
  hits-IsHit (c ∷ chunks) stored =
      by_tenant (hits-IsHit chunks (λ c' m. stored c' (inr m))) (str_eq c.tenant_id tenant_id) refl
    where
      by_video :
          All (IsHit w db tenant_id segment) (hits w db tenant_id segment chunks)
          → str_eq c.tenant_id tenant_id ≡ true
          → (o : Option Video) → select_one (is_searched w db tenant_id segment c) db.videos ≡ o
          → All (IsHit w db tenant_id segment) (with_title c o (hits w db tenant_id segment chunks))
      by_video rest own none found = rest
      by_video rest own (some v) found = (
        searched-IsHit c v (stored c (inl refl)) ((eq_iff c.tenant_id tenant_id).0 own)
            (select_one-passes (is_searched w db tenant_id segment c) db.videos found),
        rest,
      )

      by_tenant :
          All (IsHit w db tenant_id segment) (hits w db tenant_id segment chunks)
          → (b : Bool) → str_eq c.tenant_id tenant_id ≡ b
          → All (IsHit w db tenant_id segment) (
              if b
              then with_title c
                  (select_one (is_searched w db tenant_id segment c) db.videos)
                  (hits w db tenant_id segment chunks)
              else hits w db tenant_id segment chunks)
      by_tenant rest true own = by_video rest own _ refl
      by_tenant rest false other = rest

-- Of a world, only the environment counts.
pub same-IsHit :
    (v w : World) (db : Db) (tenant_id : String) (segment : Option Text) (hit : Chunk × Text)
    → v.env ≡ w.env
    → IsHit v db tenant_id segment hit
    → IsHit w db tenant_id segment hit
same-IsHit v w db tenant_id segment hit same h = record {
  stored = h.stored;
  own = h.own;
  video = h.video;
  title = h.title;
  video_id = h.video_id;
  completed = h.completed;
  live = h.live;
  listed =
      sym (ap (λ e. in_segment (record v { env = e }) db tenant_id segment h.video) same)
      ∙ h.listed;
}

-- The hits of a search, of which there are as many as the limit at most.
pub search-Outcome :
    (tenant_id : String) (embedding : Vector) (segment : Text) (limit : ℕ)
    → Outcome (search tenant_id embedding segment limit) (λ w found w'.
      All (IsHit w w.db tenant_id (optional_name segment)) found
      × (length found ≤ limit)
      × Quiet w w')
unfolding search search_chunks
search-Outcome tenant_id embedding segment limit =
    weaken
      (with_tenant_tx-Outcome tenant_id
        (exec-Outcome (search_chunks tenant_id (optional_name segment) embedding limit)))
      (λ w found w' (begun, done, (env, db), (ran, still), (env', db')).
        let asked : World = record begun { calls = suc begun.calls } in
        let name = optional_name segment in
        let near = λ (h : Chunk × Text). begun.env.distance h.0.embedding embedding in
        let rows = order_by near (hits asked begun.db tenant_id name begun.db.chunks) in
        let same : take limit rows ≡ found = ground arith in
        let after : done.db ≡ begun.db = ground arith in
        let all = All-take (IsHit asked begun.db tenant_id name) limit rows (
          All-order_by (IsHit asked begun.db tenant_id name) near
            (hits asked begun.db tenant_id name begun.db.chunks)
            (hits-IsHit asked begun.db tenant_id name begun.db.chunks (λ c m. m))) in
        (
          subst (λ (d : Db). All (IsHit w d tenant_id name) found) db
              (All-mono (IsHit asked begun.db tenant_id name) (IsHit w begun.db tenant_id name)
                found (λ h. same-IsHit asked w begun.db tenant_id name h env)
                (subst (All (IsHit asked begun.db tenant_id name)) same all)),
          rw (← same) (omega (arith, length-take limit rows)),
          (env' ∙ still ∙ env, db' ∙ after ∙ db),
        ))
