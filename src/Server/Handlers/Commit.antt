-- ===== src/Server/Handlers/Commit.antt =====
-- When a file that is committed on close is committed.
use capio.Base.{
  ℕ, zero, suc, ◌+◌, max, ◌≡◌, refl, Option, some, nat_beq, leb, ltb, Bool, true, false, ◌&&◌, ◌||◌,
  arith, ◌∙◌, ◌>>=◌, inl, inr, Bool-cases,
}
use Prim.Native.String.{String}
use capio.File.{CapioFile, new_file, close_file, closed, set_committed, dump}
use capio.Server.{Env}
use capio.Server.Handlers.{close_on, commit_and_dump}

-- That many closes, one after the other.
pub close_times : Env → String → ℕ → CapioFile → Option CapioFile
close_times env path zero f = some f
close_times env path (suc k) f = close_on env path f >>= λ g. close_times env path k g

module _ (env : Env) (path : String) (rule : env.commits_on_close path ≡ true) where
  -- One close of a file that is not permanent.
  record Closed (f g : CapioFile) : Type 0 where
    once_more : g.n_close ≡ f.n_close + 1
    same_goal : g.n_close_expected ≡ f.n_close_expected
    same_kind : g.permanent ≡ f.permanent
    commits : g.committed ≡ (
        f.committed || nat_beq f.n_close_expected 0 || nat_beq (f.n_close + 1) f.n_close_expected)

  close_on-Closed :
      (f : CapioFile)
      → f.permanent ≡ false
      → (g : CapioFile) × (close_on env path f ≡ some g) × Closed f g
  unfolding close_on closed close_file commit_and_dump set_committed dump
  close_on-Closed f p =
      elim (Bool-cases
        (nat_beq f.n_close_expected 0 || nat_beq (f.n_close + 1) f.n_close_expected)) [
          | inl t ↦ (
            set_committed true (close_file f),
            ground (arith, rule, t, p),
            record {
              once_more = refl;
              same_goal = refl;
              same_kind = refl;
              commits = ground (arith, t);
            },
          )
          | inr n ↦ (
            close_file f,
            ground (arith, rule, n),
            record {
              once_more = refl;
              same_goal = refl;
              same_kind = refl;
              commits = ground (arith, n);
            },
          )
        ]

  close_times-committed :
      (k : ℕ) (f : CapioFile)
      → f.permanent ≡ false
      → (g : CapioFile) × (close_times env path k f ≡ some g)
        × (g.committed ≡ (
            f.committed
            || (nat_beq f.n_close_expected 0 && ltb 0 k)
            || (ltb f.n_close f.n_close_expected && leb f.n_close_expected (f.n_close + k))))
  unfolding close_times
  close_times-committed zero f p = (f, refl, ground arith)
  close_times-committed (suc k) f p =
      let (g, e, c) = close_on-Closed f p in
      let (h, e', c') = close_times-committed k g (c.same_kind ∙ p) in
      (h, rw e e', ground (arith, c', c.commits, c.same_goal, c.once_more))

  -- A new file that is not permanent and is committed on close is committed, after `k` closes of its
  -- descriptors, exactly if the closes that are expected have been made, and at least one.
  pub close_times_lem :
      (directory : Bool) (n_files size n_close k : ℕ)
      → (g : CapioFile) × (close_times env path k (new_file directory n_files false size n_close)
          ≡ some g)
        × (g.committed ≡ leb (max n_close 1) k)
  unfolding new_file
  close_times_lem directory n_files size n_close k =
      let (g, e, c) =
        close_times-committed k (new_file directory n_files false size n_close) refl in
      (g, e, c ∙ (ground arith))
