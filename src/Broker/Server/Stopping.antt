-- ===== src/Broker/Server/Stopping.antt =====
-- `Stop` of pkg/broker/server.go.
use Prim.Native.String.{String}
use go_connect.Base.{
  ◌≡◌, refl, Bool, true, false, ◌||◌, Bool-cases, Option, List, [], ◌∷◌, inl, inr, arith, ◌==◌,
}
use go_connect.Broker.Router.{Client}
use go_connect.Broker.State.{Server, notify}
use go_connect.Broker.Close.{close, shut}
use go_connect.Broker.Close.Ends.{close_keeps, done-close}
use go_connect.Broker.Server.{close_all, stop, accept}

-- Who is done stays so.
done_stays : (x y : Client) (s : Server) → (s.heap y).done ≡ true → ((close x s).heap y).done ≡ true
unfolding shut notify
done_stays x y s e =
    close_keeps (λ t. (t.heap y).done ≡ true) (λ z t d. ground arith) (λ z t d. ground arith) x s e

closing_stays : (x : Client) (s : Server) → s.closing ≡ true → (close x s).closing ≡ true
unfolding shut notify
closing_stays x s e =
    close_keeps (λ t. t.closing ≡ true) (λ z t d. ground arith) (λ z t d. ground arith) x s e

done_stays_all :
    (xs : List Client) (y : Client) (s : Server)
    → (s.heap y).done ≡ true
    → ((close_all xs s).heap y).done ≡ true
unfolding close_all
done_stays_all [] y s e = e
done_stays_all (x ∷ xs) y s e = done_stays_all xs y (close x s) (done_stays x y s e)

closing_stays_all :
    (xs : List Client) (s : Server) → s.closing ≡ true → (close_all xs s).closing ≡ true
unfolding close_all
closing_stays_all [] s e = e
closing_stays_all (x ∷ xs) s e = closing_stays_all xs (close x s) (closing_stays x s e)

unfoldable pub is_tracked : Client → List Client → Bool
is_tracked y [] = false
is_tracked y (x ∷ xs) = x == y || is_tracked y xs

close_all_closes :
    (xs : List Client) (y : Client) (s : Server)
    → is_tracked y xs ≡ true
    → ((close_all xs s).heap y).done ≡ true
unfolding close_all is_tracked
close_all_closes [] y s m = absurd (ground arith)
close_all_closes (x ∷ xs) y s m = elim (Bool-cases (x == y)) [
  | inl e ↦ done_stays_all xs y (close x s) (ground (arith, done-close x s))
  | inr e ↦ close_all_closes xs y (close x s) (ground arith)
]

-- `Stop` closes every client that is tracked, and no connection is let in afterwards.
pub stop_closes :
    (y : Client) (remote : String) (host : Option String) (s : Server)
    → is_tracked y s.clients ≡ true
    → (((stop s).heap y).done ≡ true) × (accept remote host (stop s) ≡ stop s)
unfolding stop accept
stop_closes y remote host s m =
    let t = record s { closing = true } in
    (close_all_closes s.clients y t m, ground (arith, closing_stays_all s.clients t refl))
