-- ===== src/Worker/Embedding.antt =====
-- The chunks of a transcript are its sections, numbered.
use mathlib.Core.Path.{subst}
use mathlib.Core.List.{append-nil, append_assoc}
use learn_rag.Common.{
  ℕ, zero, suc, ◌+◌, ◌≤◌, ◌≡◌, refl, ap, ◌∙◌, String, List, [], ◌∷◌, ◌++◌, arith, length, take,
  drop, take-append-drop, length-drop,
}
use learn_rag.Common.Int.{ℤ, pos, negsuc}
use learn_rag.Common.Text.{Text}
use learn_rag.Errors.{wrap}
use learn_rag.Result.{ok}
use learn_rag.Model.{Chunk, Vector}
use learn_rag.Database.{World, M}
use learn_rag.Database.Outcome.{
  Outcome, weaken, bind-Outcome, map_err-Outcome, return-Outcome, new_uuid-Outcome,
  time_now-Outcome,
}
use learn_rag.Worker.{
  new_chunk, first_vector, later_vectors, chunk_batch, embed_loop, batch_size_of, embed_sections,
}

-- The chunks are those of the texts, in order, numbered from n, with the tenant and the video.
abbrev pub AreChunks : String → String → ℕ → List Text → List Chunk → Type 0
AreChunks tenant_id video_id n [] [] = Unit
AreChunks tenant_id video_id n [] (_ ∷ _) = ⊥
AreChunks tenant_id video_id n (_ ∷ _) [] = ⊥
AreChunks tenant_id video_id n (text ∷ texts) (c ∷ chunks) =
    (c.content ≡ text)
    × (c.chunk_index ≡ n)
    × (c.tenant_id ≡ tenant_id)
    × (c.video_id ≡ video_id)
    × AreChunks tenant_id video_id (suc n) texts chunks

AreChunks-snoc :
    (tenant_id video_id : String) (n : ℕ) (texts : List Text) (chunks : List Chunk) (text : Text)
    (c : Chunk)
    → AreChunks tenant_id video_id n texts chunks
    → (c.content ≡ text)
    → (c.chunk_index ≡ n + length chunks)
    → (c.tenant_id ≡ tenant_id)
    → (c.video_id ≡ video_id)
    → AreChunks tenant_id video_id n (texts ++ text ∷ []) (chunks ++ c ∷ [])
AreChunks-snoc tenant_id video_id n [] [] text c all a b d e = (a, omega arith, d, e, tt)
AreChunks-snoc tenant_id video_id n [] (_ ∷ _) text c all a b d e = absurd all
AreChunks-snoc tenant_id video_id n (_ ∷ _) [] text c all a b d e = absurd all
AreChunks-snoc tenant_id video_id n (x ∷ texts) (y ∷ chunks) text c (p, q, r, s, all) a b d e = (
  p,
  q,
  r,
  s,
  AreChunks-snoc tenant_id video_id (suc n) texts chunks text c all a (omega arith) d e,
)

any-Outcome : {A : Type 0} (m : M A) → Outcome m (λ w a w'. Unit)
any-Outcome m = record { holds = λ w a w' h. tt }

chunk_batch-AreChunks :
    (tenant_id video_id : String) (now : ℕ) (before texts : List Text) (embs : List Vector)
    (chunks : List Chunk)
    → Outcome (chunk_batch tenant_id video_id now texts embs chunks) (λ w all w'.
      AreChunks tenant_id video_id 0 before chunks
      → AreChunks tenant_id video_id 0 (before ++ texts) all)
unfolding chunk_batch
chunk_batch-AreChunks tenant_id video_id now before [] embs chunks =
    weaken return-Outcome (λ w all w' (same, _) so_far. rw (same, append-nil before) so_far)
chunk_batch-AreChunks tenant_id video_id now before (text ∷ texts) embs chunks =
    weaken
      (bind-Outcome new_uuid-Outcome λ id.
        chunk_batch-AreChunks tenant_id video_id now (before ++ text ∷ []) texts
          (later_vectors embs)
          (chunks
            ++ new_chunk tenant_id video_id now id (length chunks) text (first_vector embs) ∷ []))
      (λ w all w' (id, between, _, done) so_far.
        let longer =
          AreChunks-snoc tenant_id video_id 0 before chunks text
            (new_chunk tenant_id video_id now id (length chunks) text (first_vector embs)) so_far
            refl (omega arith) refl refl in
        subst (λ ts. AreChunks tenant_id video_id 0 ts all) (append_assoc before (text ∷ []) texts)
          (done longer))

embed_loop-AreChunks :
    (embed_batch : List Text → M (List Vector)) (tenant_id video_id : String)
    (now batch_size fuel : ℕ) (sections before : List Text) (chunks : List Chunk)
    → 1 ≤ batch_size
    → length sections ≤ fuel
    → Outcome
        (embed_loop embed_batch tenant_id video_id now batch_size fuel sections chunks)
        (λ w all w'.
          AreChunks tenant_id video_id 0 before chunks
          → AreChunks tenant_id video_id 0 (before ++ sections) all)
unfolding embed_loop
embed_loop-AreChunks embed_batch tenant_id video_id now batch_size zero [] before chunks positive
      enough =
    weaken return-Outcome (λ w all w' (same, _) so_far. rw (same, append-nil before) so_far)
embed_loop-AreChunks embed_batch tenant_id video_id now batch_size zero (s ∷ sections) before chunks
      positive enough =
    absurd (omega arith)
embed_loop-AreChunks embed_batch tenant_id video_id now batch_size (suc fuel) [] before chunks
      positive enough =
    weaken return-Outcome (λ w all w' (same, _) so_far. rw (same, append-nil before) so_far)
embed_loop-AreChunks embed_batch tenant_id video_id now batch_size (suc fuel) (s ∷ sections) before
      chunks positive enough =
    let texts = take batch_size (s ∷ sections) in
    let left = drop batch_size (s ∷ sections) in
    let fewer : length left ≤ fuel = omega (arith, length-drop batch_size (s ∷ sections)) in
    let whole : before ++ texts ++ left ≡ before ++ s ∷ sections =
      append_assoc before texts left
      ∙ ap (λ ts. before ++ ts) (take-append-drop batch_size (s ∷ sections)) in
    weaken
      (bind-Outcome (map_err-Outcome (wrap "worker: embed batch") (any-Outcome (embed_batch texts)))
        λ embs.
          bind-Outcome (chunk_batch-AreChunks tenant_id video_id now before texts embs chunks)
            λ more.
              embed_loop-AreChunks embed_batch tenant_id video_id now batch_size fuel left
                (before ++ texts) more positive fewer)
      (λ w all w' (embs, _, _, (more, _, batch, rest)) so_far.
        subst (λ ts. AreChunks tenant_id video_id 0 ts all) whole (rest (batch so_far)))

batch_size_of-positive : (n : ℤ) → 1 ≤ batch_size_of n
batch_size_of-positive (pos n) = ground arith
batch_size_of-positive (negsuc n) = ground arith

-- When the embedding of the sections succeeds, there is one chunk for each section, in order, with its text,
-- numbered from 0, of the given tenant and video; for any batch size and whatever the service answers.
pub embed_sections-AreChunks :
    (embed_batch : List Text → M (List Vector)) (tenant_id video_id : String)
    (embedding_batch_size : ℤ) (sections : List Text) (w : World) {chunks : List Chunk} {w' : World}
    → embed_sections embed_batch tenant_id video_id embedding_batch_size sections w
      ≡ (ok chunks, w')
    → AreChunks tenant_id video_id 0 sections chunks
unfolding embed_sections
embed_sections-AreChunks embed_batch tenant_id video_id size sections w {chunks} {w'} h =
    let all = bind-Outcome time_now-Outcome λ now.
      embed_loop-AreChunks embed_batch tenant_id video_id now (batch_size_of size) (length sections)
        sections [] [] (batch_size_of-positive size) (omega arith) in
    let (now, _, _, done) = all.holds w chunks w' h in done tt
