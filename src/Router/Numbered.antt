-- ===== src/Router/Numbered.antt =====
-- router/mod.rs: how the pending requests are numbered, and what one more request does to them.
use ida_mcp.Base.{
  ℕ, suc, ◌^◌, ◌<◌, ◌≤◌, ◌≡◌, ◌≢◌, refl, sym, ap, subst, ◌∙◌, some, [], ◌∷◌, ◌++◌, Text, text,
  text_discrete, decimal, All, All-map_prop, arith, HashMap, text_key,
}
use ida_mcp.Base.Map
use ida_mcp.Router.{WorkerProcess, RouterInner}
use ida_mcp.Router.Answers.{Awaits}
use ida_mcp.Router.Route.{next_req_id, with_pending}
use ida_mcp.Tasks.{next_task_id}
use ida_mcp.Tasks.Ids.{next_task_id-injective}

abbrev pub numbered : ℕ → Text
numbered n = text "r" ++ decimal n

abbrev tail : Text → Text
tail [] = []
tail (c ∷ cs) = cs

numbered-injective : (m n : ℕ) → numbered m ≡ numbered n → m ≡ n
unfolding next_task_id
numbered-injective m n e = next_task_id-injective [] [] m n (ap (λ (d : Text). b'-' ∷ tail d) e)

-- A pending request that was numbered before the counter stood at `n`.
abbrev pub IsBelow : ℕ → Text × ℕ → Type 0
IsBelow n (id, sender) = (k : ℕ) × (id ≡ numbered k) × (k < n)

abbrev pub IsNumberedAt : ℕ → Text × WorkerProcess → Type 0
IsNumberedAt n (h, w) = All (IsBelow n) w.pending

-- Every pending request of every worker.
unfoldable pub IsNumbered : RouterInner → Type 0
IsNumbered r = All (IsNumberedAt r.req_counter) r.workers

IsNumberedAt-mono :
    (m n : ℕ) (xs : HashMap Text WorkerProcess)
    → m ≤ n
    → All (IsNumberedAt m) xs
    → All (IsNumberedAt n) xs
IsNumberedAt-mono m n xs le = All-map_prop (IsNumberedAt m) (IsNumberedAt n) xs (λ x h.
    All-map_prop (IsBelow m) (IsBelow n) x.1.pending
      (λ y below. (below.0, below.1, omega (arith, le, below.2))) h)

-- What a call leaves of the pending requests.
pub record Kept (h id : Text) (sender : ℕ) (r s : RouterInner) : Type 0 where
  pub numbers : IsNumbered s
  pub counts : s.req_counter ≤ suc r.req_counter
  pub waits : Awaits h id sender r → Awaits h id sender s

module _ (r : RouterInner) (v : IsNumbered r) (h id : Text) (sender : ℕ) where
  pub same-Kept : Kept h id sender r r
  same-Kept = record { numbers = v; counts = omega arith; waits = λ a. a }

  -- A worker that is awaited has numbered the request before the counter.
  awaited_below : Awaits h id sender r → (k : ℕ) × (id ≡ numbered k) × (k < r.req_counter)
  unfolding IsNumbered
  awaited_below a =
      Map.All-get (IsBelow r.req_counter) id sender a.worker.pending
        (Map.All-get (IsNumberedAt r.req_counter) h a.worker r.workers v a.there) a.waits

  module _ (room : suc r.req_counter < 2 ^ 64) where
    pub counted-Kept : Kept h id sender r (next_req_id r).0
    unfolding next_req_id IsNumbered
    counted-Kept = record {
      numbers = IsNumberedAt-mono r.req_counter _ r.workers (omega arith) v;
      counts = omega arith;
      waits = λ a. record { worker = a.worker; there = a.there; waits = a.waits };
    }

    -- The request that is admitted takes a number that nobody waits for.
    pub with_pending-Kept :
        (target : Text) (other now : ℕ)
        → Kept h id sender r (record ((next_req_id r).0) {
          workers = Map.modify target (with_pending (next_req_id r).1 other now) r.workers;
        })
    unfolding next_req_id IsNumbered
    with_pending-Kept target other now = record {
      numbers =
          Map.All-modify _ target (with_pending (numbered r.req_counter) other now) r.workers
            (λ j w below.
              Map.All-insert _ (numbered r.req_counter) other w.pending
                (r.req_counter, refl, omega arith) below)
            (IsNumberedAt-mono r.req_counter _ r.workers (omega arith) v);
      counts = omega arith;
      waits = λ a. waiting a (text_discrete target h);
    }
      where
        fresh : Awaits h id sender r → numbered r.req_counter ≢ id
        fresh a e =
            let (k, named, below) = awaited_below a in
            let same = numbered-injective r.req_counter k (e ∙ named) in
            absurd (omega (arith, same, below))

        waiting :
            Awaits h id sender r
            → Dec (target ≡ h)
            → Awaits h id sender (record ((next_req_id r).0) {
              workers =
                  Map.modify target (with_pending (numbered r.req_counter) other now) r.workers;
            })
        waiting a (yes here) =
            let f = with_pending (numbered r.req_counter) other now in
            record {
              worker = f a.worker;
              there =
                  subst (λ t. Map.get h (Map.modify t f r.workers) ≡ some (f a.worker)) (sym here)
                    (Map.get-modify_self h f a.worker r.workers a.there);
              waits = ground (
                arith,
                a.waits,
                fresh a,
                Map.get-insert (numbered r.req_counter) id other a.worker.pending,
              );
            }
        waiting a (no elsewhere) =
            let f = with_pending (numbered r.req_counter) other now in
            record {
              worker = a.worker;
              there = ground (arith, a.there, Map.get-modify target h f r.workers);
              waits = a.waits;
            }
