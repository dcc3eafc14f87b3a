-- ===== src/Documents.antt =====
-- Bid packages: the segmentation of a file's pages into regions (src/pipeline/segmenter.py over the
-- records of src/models/document_map.py).
pub mod Segmenter
pub mod Samples
