-- ===== src/Argocd/Batcher.antt =====
-- internal/argocd/batcher.go: write-backs of one repository and branch are coalesced into batches. The
-- requests, and the errors that answer them, are any types.
pub mod Order
pub mod Delivery
use argo_watcher.Common.{
  ℕ, suc, ◌+◌, String, Bool, true, false, List, [], ◌∷◌, ◌++◌, Option, none, some, map, length,
  take, drop, is_empty, str_eq, ◌≡◌, if◌then◌else◌, ltb,
}

abbrev pub set_key : {A : Type 0} → String → A → (String → A) → String → A
set_key key a f k = if str_eq k key then a else f k

module _ (Request Error : Type 0) where
  -- `Batcher`: a missing key reads as no requests and as inactive.
  pub record Batcher : Type 0 where
    pub pending : String → List Request
    pub active : String → Bool
    pub closed : Bool

  -- The queueing of `Submit`, and whether it starts a flush loop.
  abbrev pub enqueue : String → Request → Batcher → Batcher × Bool
  enqueue key request b =
      let queued = set_key key (b.pending key ++ (request ∷ [])) b.pending in
      if b.active key
      then (record b { pending = queued }, false)
      else (record b { pending = queued; active = set_key key true b.active }, true)

  -- `Submit` up to the wait for its answer: `none` where the batcher is closed.
  unfoldable pub submit : String → Request → Batcher → Option (Batcher × Bool)
  submit key request b = if b.closed then none else some (enqueue key request b)

  -- An iteration of `flushLoop`: `none` where it returns, else the batch that it flushes.
  unfoldable pub next_batch : ℕ → String → Batcher → Batcher × Option (List Request)
  next_batch max_batch_size key b =
      let queue = b.pending key in
      let n = if ltb max_batch_size (length queue) then max_batch_size else length queue in
      if is_empty queue
      then (
        record b { pending = set_key key [] b.pending; active = set_key key false b.active },
        none,
      )
      else (record b { pending = set_key key (drop n queue) b.pending }, some (take n queue))

  -- `deliverAll`.
  abbrev pub deliver_all : List Request → Error → List (Request × Option Error)
  deliver_all batch e = map (λ request. (request, some e)) batch

  -- `flush`: what is sent on each request's channel, by the error of `NewGitRepo`, the error of
  -- `WithLock`, and the outcomes of `runBatchWriteBack`.
  unfoldable pub flush :
      Option Error
      → Option Error
      → (Request → Option Error)
      → List Request
      → List (Request × Option Error)
  flush clone_error lock_error outcomes [] = []
  flush (some e) lock_error outcomes (r ∷ rs) = deliver_all (r ∷ rs) e
  flush none (some e) outcomes (r ∷ rs) = deliver_all (r ∷ rs) e
  flush none none outcomes (r ∷ rs) = map (λ request. (request, outcomes request)) (r ∷ rs)

  -- The batcher with its goroutines: how many flush loops of a key are between two batches, the batches
  -- being flushed, the answers given, and the requests accepted.
  pub record Running : Type 0 where
    pub batcher : Batcher
    pub loops : String → ℕ
    pub flushing : String → List (List Request)
    pub answers : String → List (Request × Option Error)
    pub accepted : String → List Request

  abbrev pub after_submit : String → Request → Running → Batcher × Bool → Running
  after_submit key request s (b, starts) = record s {
    batcher = b;
    loops = set_key key (if starts then suc (s.loops key) else s.loops key) s.loops;
    accepted = set_key key (s.accepted key ++ (request ∷ [])) s.accepted;
  }

  abbrev pub after_next : String → ℕ → Running → Batcher × Option (List Request) → Running
  after_next key n s (b, none) = record s { batcher = b; loops = set_key key n s.loops }
  after_next key n s (b, some batch) = record s {
    batcher = b;
    loops = set_key key n s.loops;
    flushing = set_key key (batch ∷ s.flushing key) s.flushing;
  }

  abbrev pub after_flush :
      String
      → List (List Request)
      → List (List Request)
      → List (Request × Option Error)
      → Running
      → Running
  after_flush key before after sent s = record s {
    loops = set_key key (suc (s.loops key)) s.loops;
    flushing = set_key key (before ++ after) s.flushing;
    answers = set_key key (s.answers key ++ sent) s.answers;
  }

  -- Any goroutine takes the next step.
  pub data Step (max_batch_size : ℕ) : Running → Running → Type 0 where
    submits :
        (s : Running) (key : String) (request : Request) (b : Batcher × Bool)
        → submit key request s.batcher ≡ some b
        → Step max_batch_size s (after_submit key request s b)
    takes :
        (s : Running) (key : String) (n : ℕ)
        → s.loops key ≡ suc n
        → Step max_batch_size s (after_next key n s (next_batch max_batch_size key s.batcher))
    flushes :
        (s : Running) (key : String) (before after : List (List Request)) (batch : List Request)
        (clone_error lock_error : Option Error) (outcomes : Request → Option Error)
        → s.flushing key ≡ before ++ (batch ∷ after)
        → Step max_batch_size s
            (after_flush key before after (flush clone_error lock_error outcomes batch) s)
    closes :
        (s : Running)
        → Step max_batch_size s (record s { batcher = record s.batcher { closed = true } })

  -- `NewBatcher`.
  unfoldable pub new_batcher : Batcher
  new_batcher = record { pending = λ key. []; active = λ key. false; closed = false }

  abbrev pub started : Running
  started = record {
    batcher = new_batcher;
    loops = λ key. 0;
    flushing = λ key. [];
    answers = λ key. [];
    accepted = λ key. [];
  }

  pub data Reaches (max_batch_size : ℕ) : Running → Type 0 where
    start : Reaches max_batch_size started
    then_step :
        (s s' : Running)
        → Reaches max_batch_size s
        → Step max_batch_size s s'
        → Reaches max_batch_size s'
