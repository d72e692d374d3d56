-- ===== src/Suspend/Frame.antt =====
-- Suspending and resuming the socket changes no state of the client.
use thingsboard_sdk.Platform.{Env}
use thingsboard_sdk.World.Keeps.{Keeps}
use thingsboard_sdk.Requests.Frame.{Framed, Framed-preorder}
use thingsboard_sdk.Attributes.Frame.{subscribe_attributes-Steady, unsubscribe_attributes-Steady}
use thingsboard_sdk.Suspend.{socket_suspend, socket_resume}
use thingsboard_sdk.Suspend.Keeps.{socket_suspend-Keeps, socket_resume-Keeps}

module _ (e : Env) where
  pub socket_suspend-Framed : Keeps Framed (socket_suspend e)
  socket_suspend-Framed =
      socket_suspend-Keeps e Framed (λ v w c. c.0) Framed-preorder.transitive
        λ w. (unsubscribe_attributes-Steady e w).0

  pub socket_resume-Framed : Keeps Framed (socket_resume e)
  socket_resume-Framed =
      socket_resume-Keeps e Framed (λ v w c. c.0) Framed-preorder.transitive
        λ w. (subscribe_attributes-Steady e w).0
