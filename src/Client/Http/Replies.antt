-- ===== src/Client/Http/Replies.antt =====
-- A request makes no pause.
use app_scan_custom_dashboar.Base.{◌≡◌, refl, Option, none, some}
use app_scan_custom_dashboar.Client.Http.{
  Request, Response, World, Transport, transmit, reply_of, pure, raise,
}

reply_of-slept : {S : Type 0} (o : Option Response) (v : World S) → (reply_of o v).1.slept ≡ v.slept
unfolding reply_of pure raise
reply_of-slept none v = refl
reply_of-slept (some resp) v = refl

pub transmit-slept :
    {S : Type 0} (send : Transport S) (r : Request) (w : World S)
    → (transmit send r w).1.slept ≡ w.slept
unfolding transmit
transmit-slept send r w = reply_of-slept (send r w.service).0 _
