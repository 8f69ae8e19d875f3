-- ===== src/Goproxy/Connect/Tls/Answers.antt =====
-- What the client of the TLS loop gets.
use Prim.Native.String.{String}
use text.Mathlib.TextEquality.{eq_iff}
use text.Mathlib.TextPositions.{eq_refl}
use n6bagent.Prelude.{
  ℕ, suc, ◌≡◌, ◌≢◌, refl, ◌∙◌, ap, sym, true, false, none, some, List, [], ◌∷◌, ◌++◌, append_assoc,
  length, All, arith, get_elem?-append_length,
}
use n6bagent.Goproxy.Chunked
use n6bagent.Goproxy.Chunked.Decoding.{chunk, chunks, joined, unchunk, unchunk-chunks}
use n6bagent.Goproxy.Http.{Bytes, values, del, Request, Response, Error, ok, err}
use n6bagent.Goproxy.Http.Headers.{values-del, values-set}
use n6bagent.Goproxy.State.{World, Proxy, Transport}
use n6bagent.Goproxy.Proxy.{filter_request}
use n6bagent.Goproxy.Connect.Tls.{TlsExchange, in_chunks, chunked_header, tls_loop}

chunks-in_chunks : (bs : List Bytes) → chunks bs ≡ in_chunks bs ++ Chunked.close
chunks-in_chunks [] = refl
chunks-in_chunks (b ∷ bs) =
    ap (◌++◌ (chunk b)) (chunks-in_chunks bs)
    ∙ sym (append_assoc (chunk b) (in_chunks bs) Chunked.close)

-- The header that goes to the client announces chunks and no length, and has the other values of
-- the response; the bytes behind it are read by a decoder of chunks as the pieces of the body, up to
-- the end of the last chunk.
pub in_chunks_lem :
    (a : Response) (bs : List Bytes) (rest : Bytes)
    → All (λ b. b ≢ []) bs
    → (values "Transfer-Encoding" (chunked_header a.header) ≡ "chunked" ∷ [])
      × (values "Content-Length" (chunked_header a.header) ≡ [])
      × (unchunk (suc (length bs)) (in_chunks bs ++ (Chunked.close ++ rest))
          ≡ some (joined bs, rest))
in_chunks_lem a bs rest all =
    let k : String = "Transfer-Encoding" in
    let j : String = "Content-Length" in
    let h = a.header in
    (
      ground (arith, values-set k k "chunked" (del j h), eq_refl k),
      ground (arith, values-set k j "chunked" (del j h), values-del j j h, eq_refl j, eq_iff k j),
      ap (unchunk (suc (length bs))) (
            sym (append_assoc (in_chunks bs) Chunked.close rest)
            ∙ ap (λ (w : Bytes). w ++ rest) (sym (chunks-in_chunks bs)))
          ∙ unchunk-chunks bs rest all,
    )

-- A request whose address does not parse ends the program: with no handler that answers it, the
-- log line about it reads the address that is not there.
pub tls_loop_illegal :
    (itoa : ℕ → String) (net : Transport) (p : Proxy) (tls : ℕ) (x : TlsExchange)
    (xs : List TlsExchange) (q : Request) (e : Error) (s : World)
    → p.req_handlers ≡ []
    → x.closed ≡ false
    → x.request ≡ ok q
    → x.address ≡ err e
    → tls_loop itoa net p tls (x ∷ xs) s ≡ none
unfolding tls_loop filter_request
tls_loop_illegal itoa net p tls x xs q e s bare more read bad =
    ground (
      arith,
      bare,
      more,
      read,
      bad,
      get_elem?-append_length s.requests (record q { url_nil = true }),
    )
