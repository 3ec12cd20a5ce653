-- ===== src/Extent/Client/Flush.antt =====
-- What the server holds once a cached extent is given back.
use lab.Base.{
  ◌≤◌, ℕ, ◌+◌, ◌-◌, ◌≡◌, ◌⊎◌, refl, sym, ap, ◌∙◌, inl, inr, none, some, [], ◌++◌, ◌==◌, nat_key,
  length, drop, arith, Bool-cases, List-cases, length-append, take-append, append-nil,
}
use lab.Base.Bytes.{Bytes, str_key}
use lab.Base.Map.{lookup, insert, at, touch, lookup-insert, lookup-erase, lookup-touch, beq_self}
use lab.Protocol.Extent.{Attr}
use lab.Extent.Server
use lab.Extent.Server.{ExtentServer, Status, ok, no_attr, stamp, resize, replace, grow, max_size}
use lab.Extent.Server.Content.{
  length-written, length-grown_le, grown, written, take_all, write-some, lookup-put, grow-replace,
}
use lab.Extent.Client.{
  ExtentClient, cached, modified, write_back, flush, write, write_cached, put, drop_entry,
}

resize-append : (x y : Bytes) → resize (length x) (x ++ y) ≡ x
unfolding resize
resize-append x y =
    let none_more : length x - length (x ++ y) ≡ 0 = omega (arith, length-append x y) in
    rw (none_more, take-append x y) (append-nil x)

-- A write at the start puts its bytes before a rest of what was there.
written_front : (old x : Bytes) → written old 0 x ≡ x ++ drop (length x) (grown old (0 + length x))
written_front old x = rw (take_all x (length x) (omega arith)) refl

set_attr_cut :
    (now id : ℕ) (a b : Attr) (x y : Bytes) (s : ExtentServer)
    → lookup id s.fileid_content_m ≡ some (x ++ y)
    → lookup id s.fileid_attr_m ≡ some b
    → a.size ≡ length x
    → ((Server.set_attr now id a s).0 ≡ ok)
      × (lookup id (Server.set_attr now id a s).1.fileid_content_m ≡ some x)
unfolding Server.set_attr Server.put
set_attr_cut now id a b x y s e f g =
    let here : at id [] s.fileid_content_m ≡ x ++ y = rw (e, at) refl in
    elim (Bool-cases (length (x ++ y) == a.size)) [
      | inr longer ↦
          let cut : resize a.size (x ++ y) ≡ x =
            ap (λ n. resize n (x ++ y)) g ∙ resize-append x y in
          rw (f, Server.set_attr, here, longer, cut)
            (
              refl,
              ground (arith, lookup-insert id id x (touch id [] s.fileid_content_m), beq_self id),
            )
      | inl exact ↦
          let none_more : length y ≡ 0 = ground (arith, length-append x y) in
          let short : x ++ y ≡ x = elim (List-cases y) [
            | inl z ↦ ap (λ l. x ++ l) z ∙ append-nil x
            | inr (h, l, z) ↦ absurd (omega (arith, ap length z))
          ] in
          rw (f, Server.set_attr, here, exact)
            (refl, ground (arith, e, short, lookup-touch id id [] s.fileid_content_m, beq_self id))
    ]

write_back_lem :
    (now id : ℕ) (x old : Bytes) (a : Attr) (mode : ℕ) (s : ExtentServer)
    → lookup id s.fileid_content_m ≡ some old
    → a.size ≡ length x
    → length x ≤ max_size
    → length old ≤ max_size
    → (t : ExtentServer) × (write_back now id x a mode s ≡ some t)
      × (lookup id t.fileid_content_m ≡ some x)
unfolding write_back Server.set_mode Server.put
write_back_lem now id x old a mode s e g small before =
    let tail = drop (length x) (grown old (0 + length x)) in
    let u = Server.put now id (written old 0 x) s in
    let stored : lookup id u.fileid_content_m ≡ some (x ++ tail) =
      lookup-put now id (written old 0 x) s ∙ ap some (written_front old x) in
    let dated : lookup id u.fileid_attr_m ≡ some (stamp now (length (written old 0 x))) = ground (
      arith,
      lookup-insert id id (stamp now (length (written old 0 x))) s.fileid_attr_m,
      beq_self id,
    ) in
    let put_in : Server.write now id 0 a.size x s ≡ some (ok, u) =
      ap (λ n. Server.write now id 0 n x s) g
      ∙ write-some now id 0 x old s e (omega arith) before in
    let (fine, kept) = set_attr_cut now id a _ x tail u stored dated g in
    (
      Server.set_mode now id mode (Server.set_attr now id a u).1,
      rw (put_in, write_back) (simp (fine)),
      kept,
    )

-- The entry of an extent that is flushed: it was changed, its size is that of its content, and
-- the server has the extent.
pub record Changed (id : ℕ) (x old : Bytes) (c : ExtentClient) (s : ExtentServer) : Type 0 where
  pub status : lookup id c.cache_status ≡ some modified
  pub content : lookup id c.cache_content ≡ some x
  pub sized : (at id no_attr c.cache_attr).size ≡ length x
  pub there : lookup id s.fileid_content_m ≡ some old
  pub small : length x ≤ max_size
  pub before : length old ≤ max_size

flush-Changed :
    (now id : ℕ) (x old : Bytes) (c : ExtentClient) (s : ExtentServer)
    → Changed id x old c s
    → (t : ExtentServer) × (flush now id c s ≡ some (drop_entry id c, t))
      × (lookup id t.fileid_content_m ≡ some x)
unfolding flush
flush-Changed now id x old c s h =
    let here : at id [] c.cache_content ≡ x = rw (h.content, at) refl in
    let w =
      write_back_lem now id x old (at id no_attr c.cache_attr) (at id 0 c.cache_mode) s h.there
        h.sized h.small h.before in
    (w.0, rw (h.status, flush, here, w.1) refl, w.2)

-- An entry that can be written.
abbrev pub IsLive : ℕ → ExtentClient → Type 0
IsLive id c = (lookup id c.cache_status ≡ some cached) ⊎ (lookup id c.cache_status ≡ some modified)

write_live :
    (now id off : ℕ) (buf old : Bytes) (c : ExtentClient) (s : ExtentServer)
    → IsLive id c
    → lookup id c.cache_content ≡ some old
    → off + length buf ≤ max_size
    → length old ≤ max_size
    → write now id off buf c s ≡ some (ok, put now id (written old off buf) c, s)
unfolding write write_cached
write_live now id off buf old c s live e h k =
    let here : at id [] c.cache_content ≡ old = rw (e, at) refl in
    let (grows, replaces) = grow-replace off buf old h k in
    let stored : write_cached now id off buf c ≡ some (put now id (written old off buf) c) =
      rw (write_cached, here, grows, replaces) refl in
    elim live [ inl l ↦ rw (l, write, stored) refl | inr m ↦ rw (m, write, stored) refl ]

put-Changed :
    (now id : ℕ) (x old : Bytes) (c : ExtentClient) (s : ExtentServer)
    → lookup id s.fileid_content_m ≡ some old
    → length x ≤ max_size
    → length old ≤ max_size
    → Changed id x old (put now id x c) s
unfolding put
put-Changed now id x old c s e h k = record {
  status = ground (arith, lookup-insert id id modified c.cache_status, beq_self id);
  content = ground (arith, lookup-insert id id x c.cache_content, beq_self id);
  sized =
      let own : at id no_attr (insert id (stamp now (length x)) c.cache_attr)
          ≡ stamp now (length x) =
        ground (arith, lookup-insert id id (stamp now (length x)) c.cache_attr, beq_self id) in
      ap (λ (a : Attr). a.size) own ∙ omega arith;
  there = e;
  small = h;
  before = k;
}

-- Writing to a cached extent and flushing it comes to the same as writing at the server: where
-- the cache holds what the extent holds at a server `d` without a cache in front of it, both
-- writes succeed, the flush succeeds and leaves the cache without the entry, and the server behind
-- the cache then has the content that `d` has. That server has the extent, with whatever content;
-- the write ends within the greatest size of a string, and the three contents do so too.
pub flush_same :
    (now later id off : ℕ) (buf old before : Bytes) (c : ExtentClient) (s d : ExtentServer)
    → IsLive id c
    → lookup id c.cache_content ≡ some old
    → lookup id s.fileid_content_m ≡ some before
    → lookup id d.fileid_content_m ≡ some old
    → off + length buf ≤ max_size
    → length old ≤ max_size
    → length before ≤ max_size
    → (c' : ExtentClient) × (t e : ExtentServer) × (write now id off buf c s ≡ some (ok, c', s))
      × (flush later id c' s ≡ some (drop_entry id c', t))
      × (lookup id (drop_entry id c').cache_status ≡ none)
      × (Server.write now id off (length buf) buf d ≡ some (ok, e))
      × (lookup id t.fileid_content_m ≡ lookup id e.fileid_content_m)
flush_same now later id off buf old before c s d live e f g h k small =
    let x = written old off buf in
    let c' = put now id x c in
    let fits : length x ≤ max_size =
      ground (arith, length-written old off buf, length-grown_le old (off + length buf) h k) in
    let w = flush-Changed later id x before c' s (put-Changed now id x before c s f fits small) in
    (
      c',
      w.0,
      Server.put now id x d,
      write_live now id off buf old c s live e h k,
      w.1,
      ground (arith, lookup-erase id id c'.cache_status, beq_self id),
      write-some now id off buf old d g h k,
      w.2 ∙ sym (lookup-put now id x d),
    )
