-- ===== src/Worker/Calls.antt =====
-- What the parts of internal/worker/processor.go that do not write jobs keep of the tables, and that
-- a summary changes no job.
use mathlib.Core.Path.{subst}
use learn_rag.Common.{
  sym, ◌++◌, length, take, drop, ◌≡◌, refl, ◌∙◌, Bool, true, false, if◌then◌else◌, ℕ, zero, suc,
  String, List, [], ◌∷◌,
}
use learn_rag.Common.Int.{ℤ}
use learn_rag.Common.Text.{Text, codes, is_empty}
use learn_rag.Errors.{Err, wrap}
use learn_rag.Result.{Result, ok, err}
use learn_rag.Model.{Job, Transcript, Chunk, Vector}
use learn_rag.Database.{logged, Service, call, Db, Env, World, M}
use learn_rag.Database.Keeps.{
  Keeps, bind-Keeps, return-Keeps, map_err-Keeps, new_uuid-Keeps, time_now-Keeps,
}
use learn_rag.Repo.JobsKept.{OnJobs, save_summary-Keeps}
use learn_rag.Worker.{
  embed_sections, embed_loop, chunk_batch, later_vectors, first_vector, new_chunk, batch_size_of,
}
use learn_rag.Worker.Media.{validate_media_file}
use learn_rag.Worker.Pipeline.{
  Deps, summary_attempts, answered, from_result, check_file, attempts, or_else, summarize_once,
  record_summary, summary_row, summarized, generate_summary,
}

module _ {P : Db → Type 0} where
  pub call-Keeps : {A B : Type 0} (f : Service A B) (a : A) → Keeps P (call f a)
  call-Keeps f a = record { keeps = λ w p. p; same_env = λ w. refl }

  answered-Keeps : {A B : Type 0} (f : Service A B) (a : A) → Keeps P (answered f a)
  answered-Keeps f a = record { keeps = λ w p. p; same_env = λ w. refl }

  from_result-Keeps : {A : Type 0} (r : Result A) → Keeps P (from_result r)
  from_result-Keeps r = record { keeps = λ w p. p; same_env = λ w. refl }

  pub logged-Keeps : {A : Type 0} {m : M A} → Keeps P m → Keeps P (logged m)
  logged-Keeps inner = record { keeps = λ w p. inner.keeps w p; same_env = λ w. inner.same_env w }

  pub check_file-Keeps : (d : Deps) (job : Job) → Keeps P (check_file d job)
  unfolding check_file
  check_file-Keeps d job = bind-Keeps (answered-Keeps d.stat tt) λ size.
      bind-Keeps (answered-Keeps d.detect tt) λ mime.
        from_result-Keeps
          (validate_media_file size (codes job.file_key) job.kind d.max_upload_bytes mime)

  chunk_batch-Keeps :
      (tenant_id video_id : String) (now : ℕ) (texts : List Text) (embs : List Vector)
      (chunks : List Chunk)
      → Keeps P (chunk_batch tenant_id video_id now texts embs chunks)
  unfolding chunk_batch
  chunk_batch-Keeps tenant_id video_id now [] embs chunks = return-Keeps
  chunk_batch-Keeps tenant_id video_id now (text ∷ texts) embs chunks =
      bind-Keeps new_uuid-Keeps λ id.
        chunk_batch-Keeps tenant_id video_id now texts (later_vectors embs) (
          chunks
          ++ new_chunk tenant_id video_id now id (length chunks) text (first_vector embs) ∷ [])

  embed_loop-Keeps :
      (f : Service (List Text) (List Vector)) (tenant_id video_id : String)
      (now batch_size fuel : ℕ) (sections : List Text) (chunks : List Chunk)
      → Keeps P (embed_loop (call f) tenant_id video_id now batch_size fuel sections chunks)
  unfolding embed_loop
  embed_loop-Keeps f tenant_id video_id now batch_size zero sections chunks = return-Keeps
  embed_loop-Keeps f tenant_id video_id now batch_size (suc fuel) [] chunks = return-Keeps
  embed_loop-Keeps f tenant_id video_id now batch_size (suc fuel) (s ∷ sections) chunks =
      bind-Keeps
        (map_err-Keeps (wrap "worker: embed batch") (call-Keeps f (take batch_size (s ∷ sections))))
        λ embs.
          bind-Keeps
            (chunk_batch-Keeps tenant_id video_id now (take batch_size (s ∷ sections)) embs chunks)
            λ more.
              embed_loop-Keeps f tenant_id video_id now batch_size fuel
                (drop batch_size (s ∷ sections)) more

  pub embed_sections-Keeps :
      (f : Service (List Text) (List Vector)) (tenant_id video_id : String) (size : ℤ)
      (sections : List Text)
      → Keeps P (embed_sections (call f) tenant_id video_id size sections)
  unfolding embed_sections
  embed_sections-Keeps f tenant_id video_id size sections = bind-Keeps time_now-Keeps λ now.
      embed_loop-Keeps f tenant_id video_id now (batch_size_of size) (length sections) sections []

-- The attempts at a summary change the number of calls only.
attempts-quiet :
    (d : Deps) (content : Text) (n : ℕ) (last : Result Text) (w : World)
    → ((attempts d content n last w).1.db ≡ w.db) × ((attempts d content n last w).1.env ≡ w.env)
unfolding attempts summarize_once
attempts-quiet d content zero last w = (refl, refl)
attempts-quiet d content (suc n) last w =
    by_outcome (summarize_once d content w) (attempts d content n)
      (λ e v. attempts-quiet d content n (err e) v) refl refl
  where
    by_outcome :
        (r : Result Text × World) (next : Result Text → World → Result Text × World)
        → ((e : Err) (v : World)
            → ((next (err e) v).1.db ≡ v.db) × ((next (err e) v).1.env ≡ v.env))
        → r.1.db ≡ w.db
        → r.1.env ≡ w.env
        → ((or_else r next).1.db ≡ w.db) × ((or_else r next).1.env ≡ w.env)
    by_outcome (ok c, v) next quiet db env = (db, env)
    by_outcome (err e, v) next quiet db env = ((quiet e v).0 ∙ db, (quiet e v).1 ∙ env)

if_keeps :
    {A : Type 0} (P : Db → Type 0) (b : Bool) (x y : Result A × World)
    → P x.1.db
    → P y.1.db
    → P (if b then x else y).1.db
if_keeps P true x y p q = p
if_keeps P false x y p q = q

if_env :
    {A : Type 0} (env : Env) (b : Bool) (x y : Result A × World)
    → x.1.env ≡ env
    → y.1.env ≡ env
    → (if b then x else y).1.env ≡ env
if_env env true x y p q = p
if_env env false x y p q = q

module _ (Q : List Job → Type 0) where
  record_summary-Keeps :
      (job : Job) (video_id : String) (t : Transcript) (outcome : Result Text)
      → Keeps (OnJobs Q) (record_summary job video_id t outcome)
  unfolding record_summary
  record_summary-Keeps job video_id t outcome = bind-Keeps new_uuid-Keeps λ id.
      bind-Keeps time_now-Keeps λ created. bind-Keeps time_now-Keeps λ updated.
        logged-Keeps (save_summary-Keeps Q (summary_row job video_id t outcome id created updated))

  -- A summary, made or not, changes no job.
  pub generate_summary-Keeps :
      (d : Deps) (job : Job) (video_id : String) (t : Transcript)
      → Keeps (OnJobs Q) (generate_summary d job video_id t)
  unfolding generate_summary
  generate_summary-Keeps d job video_id t =
      let made = λ (w : World). attempts d t.content summary_attempts (ok []) w in
      let quiet = λ (w : World). attempts-quiet d t.content summary_attempts (ok []) w in
      let kept = λ (w : World). record_summary-Keeps job video_id t (made w).0 in
      record {
        keeps = λ w p.
            if_keeps (OnJobs Q) (is_empty t.content) (ok tt, w) (summarized job video_id t (made w))
              p ((kept w).keeps (made w).1 (subst (OnJobs Q) (sym (quiet w).0) p));
        same_env = λ w.
            if_env w.env (is_empty t.content) (ok tt, w) (summarized job video_id t (made w)) refl
              ((kept w).same_env (made w).1 ∙ (quiet w).1);
      }
