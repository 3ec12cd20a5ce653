-- ===== src/Rsm/ViewChange.antt =====
-- What the decision of a new view does to a member.
use lab.Base.{
  ℕ, ◌+◌, ◌-◌, ◌%◌, ◌^◌, ◌<◌, ◌≡◌, refl, sym, ap, subst, ◌∙◌, Bool, true, false, not, Option, some,
  List, [], arith, if◌then◌else◌, nat_key, leb, ltb,
}
use lab.Base.Bytes.{Bytes}
use lab.Base.Map.{Map, insert, at, touch, lookup-insert, lookup-touch}
use lab.Protocol.Paxos.{Decidearg}
use lab.Protocol.Rsm.{Viewstamp}
use lab.Paxos.Acceptor
use lab.Paxos.Acceptor.{Acceptor, log_record}
use lab.Paxos.Proposer.{isamember}
use lab.Config.{
  Config, members, get_view, get_curview, get_prevview, paxos_commit, commit, decidereq,
}
use lab.Config.Views.{InView, decided_view}
use lab.Rsm.{Rsm, decide_view, commit_change_wo, set_primary}
use lab.Rsm.Calls.{busy, client_invoke}
use lab.Rsm.Primary.{previous, new_primary}

at-touch : (k j : ℕ) (m : Map ℕ Bytes) → at j [] (touch k [] m) ≡ at j [] m
at-touch k j m = ground (arith, lookup-touch k j [] m)

get_curview-InView :
    (i : ℕ) (m : List Bytes) (c : Config)
    → InView i m c
    → InView i m (get_prevview (get_curview c).1).1
unfolding get_curview get_prevview get_view
get_curview-InView i m c (a, b, v) = (
  a,
  b,
  ap members (
        at-touch ((c.myvid + (2 ^ 32 - 1)) % 2 ^ 32) c.myvid (touch c.myvid [] c.acc.values)
        ∙ at-touch c.myvid c.myvid c.acc.values)
      ∙ v,
)

previous_decided :
    {A : Type 0} (d : Decidearg) (s : Rsm A)
    → d.instance_no ≡ s.cfg.acc.instance_h + 1
    → d.instance_no < 2 ^ 32
    → previous (record s { cfg = decidereq d s.cfg })
      ≡ members (at s.cfg.acc.instance_h [] s.cfg.acc.values)
unfolding decidereq commit paxos_commit get_curview get_prevview get_view Acceptor.commit_wo
    log_record
previous_decided d s e small =
    let i = d.instance_no in
    let h = s.cfg.acc.instance_h in
    let new : leb i h ≡ false = ground arith in
    let higher : ltb h i ≡ true = ground arith in
    let back : (i + (2 ^ 32 - 1)) % 2 ^ 32 ≡ h = omega arith in
    rw (new, higher, back)
      (ap members (
        at-touch i h (insert i d.v s.cfg.acc.values)
        ∙ ground (arith, lookup-insert i h d.v s.cfg.acc.values)))

-- The member `t` with the primary chosen, in the view change.
abbrev changing : {A : Type 0} → Rsm A → Rsm A
changing t = record t {
  inviewchange = true;
  last_myvs = t.myvs;
  myvs = record { vid = t.cfg.myvid; seqno = t.myvs.seqno };
}

decide_view_new :
    {A : Type 0} (d : Decidearg) (s t : Rsm A)
    → s.cfg.acc.instance_h < d.instance_no
    → set_primary (record s { cfg = decidereq d s.cfg }) ≡ some t
    → decide_view d s ≡ some (changing t)
unfolding decide_view commit_change_wo
decide_view_new d s t h e =
    let new : leb d.instance_no s.cfg.acc.instance_h ≡ false = ground arith in
    ap
      (λ b.
        if not b
        then commit_change_wo (record s { cfg = decidereq d s.cfg })
        else some (record s { cfg = decidereq d s.cfg }))
      new
    ∙ rw (e, commit_change_wo) refl

-- The next instance is decided with members `m`, one of which was in the view before: the
-- member is then in this view, in a view change, with the view's number in its viewstamp and
-- the sequence number and the service as before. The primary is one of `m`, and the old one if
-- that is still a member; a client that asks any procedure is told to come back later.
pub view_decided :
    {A W : Type 0} (procs : ℕ → Option (Bytes → A → ℕ × Bytes × A))
    (call : Bytes → ℕ → Viewstamp → Bytes → W → Bool × W) (proc : ℕ) (req r : Bytes) (w : W)
    (d : Decidearg) (m : List Bytes) (s : Rsm A) (x : Bytes)
    → d.instance_no ≡ s.cfg.acc.instance_h + 1
    → d.instance_no < 2 ^ 32
    → members d.v ≡ m
    → isamember x m ≡ true
    → isamember x (members (at s.cfg.acc.instance_h [] s.cfg.acc.values)) ≡ true
    → (t : Rsm A) × (decide_view d s ≡ some t)
      × InView d.instance_no m t.cfg
      × (t.myvs ≡ record { vid = d.instance_no; seqno = s.myvs.seqno })
      × (t.app ≡ s.app)
      × (isamember t.primary m ≡ true)
      × (isamember s.primary m ≡ true → t.primary ≡ s.primary)
      × (client_invoke procs call proc req r t w ≡ some (busy, r, t, w))
unfolding client_invoke
view_decided procs call proc req r w d m s x e small names here before =
    let t0 = record s { cfg = decidereq d s.cfg } in
    let now = decided_view d m s.cfg (omega arith) names in
    let f =
      new_primary t0 x (ap (isamember x) now.2 ∙ here)
        (ap (isamember x) (previous_decided d s e small) ∙ before) in
    let view =
      subst (InView d.instance_no m) (sym f.7) (get_curview-InView d.instance_no m t0.cfg now) in
    (
      changing f.0,
      decide_view_new d s f.0 (omega arith) f.1,
      view,
      ap (λ i. record { vid = i; seqno = f.0.myvs.seqno }) view.1
          ∙ ap (λ (v : Viewstamp). record { vid = d.instance_no; seqno = v.seqno }) f.6,
      f.5,
      ap (isamember f.0.primary) (sym now.2) ∙ f.2,
      λ k. f.3 (ap (isamember s.primary) now.2 ∙ k),
      refl,
    )
