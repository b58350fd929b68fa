-- ===== src/Pagination/Walk.antt =====
-- A client that follows `next_cursor` until there is none, over a fixed list of rows. The handlers
-- ask the database for one row more than the page holds, at the offset that the cursor carries.
use rust_mcp.Prelude.{
  ℕ, zero, suc, ◌+◌, ◌-◌, ◌/◌, ◌≤◌, ◌<◌, ◌≡◌, ◌≢◌, true, false, List, ◌++◌, Option, none, some,
  arith, ltb, length, take, drop, length-take, length-drop, take-take, take_all, drop-drop,
  take-append-drop, Result, ok, err, ◌>>=◌, Option-cases, inl, inr, Bool-cases,
}
use rust_mcp.Pagination.{
  Codec, IsFaithful, CursorToken, PaginationParams, PaginatedResult, CursorError, u32_max,
  saturating_add, decode_cursor, encode_cursor, resolve_pagination, apply_pagination_limit,
  decode_cursor-encode_cursor,
}
use rust_mcp.Text.{Text}

module _ {T A : Type 0} (codec : Codec T) (token : CursorToken T) (make : ℕ → ℕ → T)
    (rows : List A) where
  -- What a handler does for one page: the query, and the cut to the page size.
  unfoldable pub page : PaginationParams → Result CursorError (PaginatedResult A)
  page p =
      apply_pagination_limit codec token (take (saturating_add p.limit 1) (drop p.offset rows))
        p.limit p.offset (λ offset. make offset p.limit)

  abbrev next : Text → Result CursorError PaginationParams
  next cursor = do
    t ← decode_cursor codec token cursor
    resolve_pagination codec token (some t) false 0 1

  abbrev in_front : List A → Option (List A) → Option (List A)
  in_front xs none = none
  in_front xs (some ys) = some (xs ++ ys)

  abbrev resume :
      (PaginationParams → Option (List A))
      → List A
      → Result CursorError PaginationParams
      → Option (List A)
  resume rest items (err e) = none
  resume rest items (ok p) = in_front items (rest p)

  abbrev follow : (PaginationParams → Option (List A)) → List A → Option Text → Option (List A)
  follow rest items none = some items
  follow rest items (some cursor) = resume rest items (next cursor)

  abbrev read :
      (PaginationParams → Option (List A))
      → Result CursorError (PaginatedResult A)
      → Option (List A)
  read rest (err e) = none
  read rest (ok r) = follow rest r.items r.next_cursor

  -- Every item that the client sees, page after page; `none` where a call fails or the fuel ends.
  unfoldable pub walk : ℕ → PaginationParams → Option (List A)
  walk zero p = none
  walk (suc fuel) p = read (walk fuel) (page p)

  module _ (small : length rows ≤ u32_max) where
    page_last :
        (p : PaginationParams)
        → length (drop p.offset rows) ≤ p.limit
        → page p ≡ ok (record { items = drop p.offset rows; has_more = false; next_cursor = none })
    unfolding page apply_pagination_limit
    page_last p h =
        rw
          (take_all (saturating_add p.limit 1) (drop p.offset rows)
            (omega (arith, length-drop p.offset rows)))
          (ground arith)

    page_more :
        (p : PaginationParams) (bytes : Text)
        → p.limit < length (drop p.offset rows)
        → codec.to_bytes (make (p.offset + p.limit) p.limit) ≡ some bytes
        → page p
          ≡ ok (record {
            items = take p.limit (drop p.offset rows);
            has_more = true;
            next_cursor = some (codec.encode64 bytes);
          })
    unfolding page apply_pagination_limit
    page_more p bytes h e =
        let whole : saturating_add p.offset p.limit ≡ p.offset + p.limit =
          omega (arith, length-drop p.offset rows) in
        rw
          (
            take-take p.limit (saturating_add p.limit 1) (drop p.offset rows)
                (omega (arith, length-drop p.offset rows)),
            whole,
          )
          (ground (
            arith,
            length-take (saturating_add p.limit 1) (drop p.offset rows),
            length-drop p.offset rows,
          ))

    module _ (faithful : IsFaithful codec) (serializes : (t : T) → codec.to_bytes t ≢ none)
        (versions : (o l : ℕ) → token.version (make o l) ≡ 1)
        (limits : (o l : ℕ) → token.limit (make o l) ≡ l)
        (offsets : (o l : ℕ) → token.offset (make o l) ≡ o) where
      next_lem :
          (o l : ℕ) (bytes : Text)
          → 0 < l
          → codec.to_bytes (make o l) ≡ some bytes
          → next (codec.encode64 bytes)
            ≡ ok (record { offset = o; limit = l; effective_page = saturating_add (o / l) 1 })
      unfolding resolve_pagination encode_cursor
      next_lem o l bytes pos e =
          rw
            (decode_cursor-encode_cursor codec token faithful (make o l) (codec.encode64 bytes)
              (versions o l) (rw limits pos) (rw e))
            (rw (limits, offsets))

      -- Over a list of at most 2 ^ 32 - 1 rows, with libraries that read back what they wrote, and
      -- tokens that can be written and carry version 1, the page size and the offset: a client that
      -- starts at some offset with a positive page size and follows the cursors sees exactly the rows
      -- from there on, each once and in order, within as many calls as there are rows left, and one.
      pub walk-drop :
          (fuel : ℕ) (p : PaginationParams)
          → 0 < p.limit
          → length rows - p.offset < fuel
          → walk fuel p ≡ some (drop p.offset rows)
      unfolding walk
      walk-drop zero p pos f = absurd (omega arith)
      walk-drop (suc fuel) p pos f = elim (Bool-cases (ltb p.limit (length (drop p.offset rows)))) [
        | inr last ↦ rw (page_last p (ground arith))
        | inl more ↦ elim (Option-cases (codec.to_bytes (make (p.offset + p.limit) p.limit))) [
          | inl e ↦ absurd (serializes _ e)
          | inr (bytes, e) ↦ rw (
            page_more p bytes (ground arith) e,
            next_lem (p.offset + p.limit) p.limit bytes pos e,
            walk-drop fuel
                (record {
                  offset = p.offset + p.limit;
                  limit = p.limit;
                  effective_page = saturating_add ((p.offset + p.limit) / p.limit) 1;
                })
                pos (ground (arith, length-drop p.offset rows)),
            ← drop-drop p.limit p.offset rows,
            take-append-drop p.limit (drop p.offset rows),
          )
        ]
      ]
