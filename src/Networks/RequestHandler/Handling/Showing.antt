-- ===== src/Networks/RequestHandler/Handling/Showing.antt =====
-- The request for the unified scene, from the handler down to the merge and the text of the scene.
use minority_viewport.Base.{◌>>=◌, Bytes, codes}
use minority_viewport.Data.Scene.{Scene}
use minority_viewport.Algorithms.Viewport.{Viewport}
use minority_viewport.Networks.Request.{Request}
use minority_viewport.Networks.Reply.{Reply}

abbrev pub data_path : Bytes
data_path = codes "/api/visualisations/data.json"
