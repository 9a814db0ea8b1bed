-- ===== src/Audience.antt =====
-- What a caller is told beside the rendered data: the answers of the affordances
-- (rest_framework_services/audience/utils.py) and the projection of a serializer for an agent
-- (audience/build_audience_projection.py).
pub mod Answers
pub mod Projection
