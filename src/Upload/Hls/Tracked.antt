-- ===== src/Upload/Hls/Tracked.antt =====
-- The files that the parser of upload/hls.go tracks, each with a channel of its own that is open.
use stream_api.Base.{
  ℕ, suc, ◌≤◌, ◌<◌, ◌≡◌, sym, ap, true, false, some, ◌∷◌, Str, str_Eq, str_eq_iff, if◌then◌else◌,
  arith, ◌==◌, ◌∙◌,
}
use stream_api.Base.Dict.{
  Dict, lookup, insert, remove, lookup-insert, lookup-remove, IsDistinct, insert-IsDistinct,
  remove-IsDistinct,
}
use stream_api.Upload.Channels.{Channels, close}

-- Every tracked channel was made and is open, and no two files share one. The channels that others
-- hold were made, are open and are not tracked.
pub record IsTracked (held : ℕ → Type 0) (files : Dict Str ℕ) (cs : Channels) : Type 0 where
  pub distinct : IsDistinct files
  pub fresh : (c : ℕ) → cs.next ≤ c → cs.closed c ≡ false
  pub made : (p : Str) (c : ℕ) → lookup p files ≡ some c → c < cs.next
  pub is_open : (p : Str) (c : ℕ) → lookup p files ≡ some c → cs.closed c ≡ false
  pub apart : (p q : Str) (c : ℕ) → lookup p files ≡ some c → lookup q files ≡ some c → p ≡ q
  pub held_made : (c : ℕ) → held c → c < cs.next
  pub held_open : (c : ℕ) → held c → cs.closed c ≡ false
  pub held_apart : (p : Str) (c : ℕ) → held c → lookup p files ≡ some c → ⊥

pub insert-IsTracked :
    (held : ℕ → Type 0) (p : Str) (files : Dict Str ℕ) (cs : Channels)
    → IsTracked held files cs
    → IsTracked held (insert p cs.next files) (record cs { next = suc cs.next })
insert-IsTracked held p files cs t = record {
  distinct = insert-IsDistinct p cs.next files t.distinct;
  fresh = λ c h. t.fresh c (omega arith);
  made = λ q c h. ground (arith, lookup-insert p q cs.next files, t.made q c);
  is_open = λ q c h.
      ground (arith, lookup-insert p q cs.next files, t.is_open q c, t.fresh cs.next (omega arith));
  apart = λ q r c hq hr. ground (
    arith,
    lookup-insert p q cs.next files,
    lookup-insert p r cs.next files,
    t.made q c,
    t.made r c,
    t.apart q r c,
    str_eq_iff p q,
    str_eq_iff p r,
  );
  held_made = λ c h. ground (arith, t.held_made c h);
  held_open = λ c h. t.held_open c h;
  held_apart = λ q c h e.
      ground (arith, lookup-insert p q cs.next files, t.held_made c h, t.held_apart q c h);
}

abbrev pub after_close : ℕ → Channels → Channels
after_close c cs = record cs { closed = λ d. if c == d then true else cs.closed d }

pub close_open :
    (c : ℕ) (cs : Channels) → cs.closed c ≡ false → close c cs ≡ some (after_close c cs)
unfolding close
close_open c cs h = rw h

pub remove-IsTracked :
    (held : ℕ → Type 0) (p : Str) (c : ℕ) (files : Dict Str ℕ) (cs : Channels)
    → lookup p files ≡ some c
    → IsTracked held files cs
    → IsTracked held (remove p files) (after_close c cs)
remove-IsTracked held p c files cs found t = record {
  distinct = remove-IsDistinct p files t.distinct;
  fresh = λ d h. ground (arith, t.fresh d, t.made p c found);
  made = λ q d h. ground (arith, lookup-remove p q files, t.made q d);
  is_open = λ q d h.
      ground (arith, lookup-remove p q files, t.is_open q d, t.apart p q d, str_eq_iff p q);
  apart = λ q r d hq hr.
      ground (arith, lookup-remove p q files, lookup-remove p r files, t.apart q r d);
  held_made = λ d h. t.held_made d h;
  held_open =
      λ d h. ground (arith, t.held_open d h, λ (e : c ≡ d). t.held_apart p d h (found ∙ ap some e));
  held_apart = λ q d h e. t.held_apart q d h (ground (arith, lookup-remove p q files));
}

-- A tracked tail stays tracked once the head's channel is closed.
pub tail-IsTracked :
    (held : ℕ → Type 0) (p : Str) (c : ℕ) (files : Dict Str ℕ) (cs : Channels)
    → IsTracked held ((p, c) ∷ files) cs
    → IsTracked held files (after_close c cs)
unfolding lookup
tail-IsTracked held p c files cs t =
    let up : (q : Str) (d : ℕ) → lookup q files ≡ some d → lookup q ((p, c) ∷ files) ≡ some d =
      λ q d h. ground (arith, str_eq_iff p q, t.distinct.0) in
    let here : lookup p ((p, c) ∷ files) ≡ some c = ground (arith, str_eq_iff p p) in
    record {
      distinct = t.distinct.1;
      fresh = λ d h. ground (arith, t.fresh d, t.made p c here);
      made = λ q d h. t.made q d (up q d h);
      is_open = λ q d h. ground (
        arith,
        t.is_open q d (up q d h),
        λ (e : c ≡ d). t.apart p q c here (up q d h ∙ ap some (sym e)),
        t.distinct.0,
      );
      apart = λ q r d hq hr. t.apart q r d (up q d hq) (up r d hr);
      held_made = λ d h. t.held_made d h;
      held_open = λ d h.
          ground (arith, t.held_open d h, λ (e : c ≡ d). t.held_apart p d h (here ∙ ap some e));
      held_apart = λ q d h e. t.held_apart q d h (up q d e);
    }
